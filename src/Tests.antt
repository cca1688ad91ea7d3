-- ===== src/Tests.antt =====
-- Concrete parameters, games and states, and the theorems applied to them.
mod Toy
mod Cbor
mod Board
mod Games
mod Vault
mod StateRuns
mod PolicyRuns
mod ProjectRuns
mod ContractRuns
mod DelegateRuns
mod CreateRuns
mod Session
mod SessionRuns
mod SessionSteps
mod UiRuns
