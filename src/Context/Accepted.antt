-- ===== src/Context/Accepted.antt =====
-- libjcat/jcat-context.c: a run of one of the two verifications that succeeds, over relations that
-- describe the steps of its loops.
use libjcat.Blob.{JcatBlob}
use libjcat.Context.{Session}
use libjcat.Context.Passes.{AllPass-map, AllTried-map, AllPass, AllTried}
use libjcat.Context.Verify.{Check}
use libjcat.Kind.{has_flag, require_checksum, require_signature}
use libjcat.Prelude.{ℕ, ◌<◌, true, List, ◌++◌, length, ◌≡◌}
use libjcat.Result.{JcatResult}

module _ {World : Type 0}
    (ChecksumStep SignatureStep : JcatBlob → Session World → Check World → Type 0) where
  -- A verification that succeeds: every blob that the first loop does not skip passes, the second
  -- loop starts in the state that the first one leaves, and the results are those of both.
  pub record Accepted (blobs : List JcatBlob) (flags : ℕ) (s : Session World)
      (results : List JcatResult) (u : Session World) : Type 0 where
    pub checksums : List JcatResult
    pub signatures : List JcatResult
    pub between : Session World
    pub checksums_pass : AllPass ChecksumStep blobs s checksums between
    pub signatures_tried : AllTried SignatureStep blobs between signatures u
    pub results_are : checksums ++ signatures ≡ results
    pub has_result : 0 < length results
    pub has_checksum : has_flag flags require_checksum ≡ true → 0 < length checksums
    pub has_signature : has_flag flags require_signature ≡ true → 0 < length signatures

module _ {World : Type 0}
    {ChecksumStep SignatureStep OtherChecksum OtherSignature : JcatBlob
      → Session World
      → Check World
      → Type 0} where
  pub Accepted-map :
      {blobs : List JcatBlob} {flags : ℕ} {s : Session World} {results : List JcatResult}
      {u : Session World}
      → ((blob : JcatBlob) (v : Session World) (c : Check World)
          → ChecksumStep blob v c
          → OtherChecksum blob v c)
      → ((blob : JcatBlob) (v : Session World) (c : Check World)
          → SignatureStep blob v c
          → OtherSignature blob v c)
      → Accepted ChecksumStep SignatureStep blobs flags s results u
      → Accepted OtherChecksum OtherSignature blobs flags s results u
  Accepted-map {blobs} {flags} {s} {results} {u} checks signs a = record {
    checksums = a.checksums;
    signatures = a.signatures;
    between = a.between;
    checksums_pass = AllPass-map checks blobs s a.checksums a.between a.checksums_pass;
    signatures_tried = AllTried-map signs blobs a.between a.signatures u a.signatures_tried;
    results_are = a.results_are;
    has_result = a.has_result;
    has_checksum = a.has_checksum;
    has_signature = a.has_signature;
  }
