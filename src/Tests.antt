-- ===== src/Tests.antt =====
-- The theorems at concrete inputs, and runs of the definitions that follow the source's unit tests.
mod Pool
mod Batching
mod Rounds
mod Leaders
mod Zeus
mod Store
mod Committing
mod Admitting
mod Hera
mod Attestations
mod Certificates
mod Encoding
mod Server
mod ZeusServer
mod ZeusBlocks
mod ZeusCommits
