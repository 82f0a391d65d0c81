-- ===== src/Unseal.antt =====
-- The job that initialises and unseals Vault (vault/client-go/init/main.go).
pub mod Process
pub mod Answered
pub mod Begin
pub mod Counting
pub mod Waiting
pub mod Stores
pub mod Finish
pub mod Short
pub mod KeyLost
pub mod Start
pub mod FewNames
pub mod Once
