-- ===== src/Derive.antt =====
-- zizq-derive/src: the derive macro of `JobKind`, its attributes and the paths that they name.
pub mod Meta
pub mod Attrs
pub mod Path
pub mod Kind
