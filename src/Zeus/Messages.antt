-- ===== src/Zeus/Messages.antt =====
-- consensus/src/types/zeus_msg.rs: the messages between servers. A hash is a number.
use leto_rs.Prelude.{ℕ}
use leto_rs.Types.{Signature, Certificate, Proposal, Element, Request, Response}
use leto_rs.Zeus.Types.{Attestation, DataBlock, EleaderBlame, EleaderChangeQc}

pub data ZeusMsg (Tx : Type 0) : Type 0 where
  sig_propose : Proposal → Signature → Attestation → ℕ → ZeusMsg Tx
  sig_relay : Proposal → Signature → ℕ → ℕ → ZeusMsg Tx
  sig_blame : ℕ → Signature → ZeusMsg Tx
  sig_blame_qc : ℕ → Certificate → ZeusMsg Tx
  attestation_request : ℕ → Request → ZeusMsg Tx
  attestation_response : Response Attestation → ZeusMsg Tx
  sig_element_request : ℕ → Request → ZeusMsg Tx
  sig_element_response : Response (Element Attestation) → ZeusMsg Tx
  data_propose : DataBlock Tx → ℕ → ZeusMsg Tx
  data_request : ℕ → ℕ → ZeusMsg Tx
  data_response : DataBlock Tx → ZeusMsg Tx
  eleader_blame : EleaderBlame Tx → ZeusMsg Tx
  eleader_change_qc : EleaderChangeQc Tx → ZeusMsg Tx
