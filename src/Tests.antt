-- ===== src/Tests.antt =====
-- Runs of the model on small inputs, after the tests of the repository, and each property at a
-- concrete input.
mod Runs
mod Witnesses
mod OnApi
mod OnSqlite
mod OnConcurrent
mod OnWeb
mod OnCommandLine
mod OnServed
mod OnServer
mod OnStorages
mod Samples
