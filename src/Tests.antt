-- ===== src/Tests.antt =====
-- Runs of the model and uses of its theorems at concrete inputs, one module for each part.
mod Error
mod Take
mod Worker
mod Patch
mod Endpoints
mod Trees
mod JqPath
mod Router
mod Enqueue
mod Client
mod Derive
mod Kind
mod UniqueKey
