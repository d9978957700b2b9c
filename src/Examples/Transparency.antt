-- ===== src/Examples/Transparency.antt =====
-- The signed note of a small log, and the text of its verifier key.
use libjcat.Bt.Checkpoint
use libjcat.Bt.Checkpoint.{JcatBtCheckpoint, key_hint, payload_of}
use libjcat.Bt.Memory.{splitter, splitter_laws}
use libjcat.Bt.Notes.{Head, note, verifier_text, new-note, new-verifier_text}
use libjcat.Bt.Valid.{IsCheckpointOf, new-IsCheckpointOf}
use libjcat.Bt.Verifier
use libjcat.Bt.Verifier.{JcatBtVerifier}
use libjcat.Examples.Printing.{ascii}
use libjcat.Json.Tree.{plain, plain_laws}
use libjcat.Prelude.{◌++◌, Bytes, codes, replicate, drop, c_string, ok, ◌≡◌, refl, arith}

abbrev head : Head
head = record {
  origin = codes "log";
  size_text = codes "215";
  log_size = 215;
  pubkey = replicate 32 65;
}

abbrev signer : Bytes
signer = codes "signer"

abbrev sig : Bytes
sig = codes "abcd" ++ replicate 64 66

abbrev checkpoint : JcatBtCheckpoint
checkpoint = record {
  log_size = 215;
  origin = codes "log";
  identity = signer;
  hash = key_hint splitter sig;
  blob_pubkey = replicate 32 65;
  blob_signature = drop 4 sig;
  blob_payload = payload_of (codes "log") (codes "215") (replicate 32 65);
}

new-note_example : Checkpoint.new splitter plain ascii (note plain head signer sig) ≡ ok checkpoint
new-note_example =
    new-note splitter plain ascii splitter_laws plain_laws head signer sig (omega arith)
      (omega arith) (omega arith) refl (omega arith) refl refl

new-IsCheckpointOf_example :
    IsCheckpointOf splitter plain ascii (c_string (note plain head signer sig)) checkpoint
new-IsCheckpointOf_example =
    new-IsCheckpointOf splitter plain ascii (note plain head signer sig) checkpoint splitter_laws
      new-note_example

abbrev verifier : JcatBtVerifier
verifier = record { name = codes "log"; hash = codes "5a"; alg = 1; blob_key = replicate 32 65 }

new-verifier_text_example : Verifier.new splitter plain (verifier_text plain verifier) ≡ ok verifier
new-verifier_text_example =
    new-verifier_text splitter plain ascii splitter_laws plain_laws verifier (omega arith)
      (omega arith) (omega arith) refl
