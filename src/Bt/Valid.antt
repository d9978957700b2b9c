-- ===== src/Bt/Valid.antt =====
-- What `jcat_bt_checkpoint_new` of libjcat/jcat-bt-checkpoint.c guarantees of a checkpoint.
use mathlib.Core.List.{append_assoc}
use mathlib.Core.Path.{subst}
use libjcat.Bt.Checkpoint.{
  JcatBtCheckpoint, payload_of, signed, parse_signature, parse_lines, new, dash,
}
use libjcat.Bt.Split.{Scanner, SplitLaws, newline, space, join}
use libjcat.Json.{Base64}
use libjcat.Prelude.{
  ℕ, ◌≤◌, ◌+◌, Bool, false, not, Bool-cases, List, [], ◌∷◌, ◌++◌, Bytes, c_string, length, drop,
  beq, ltb, ◌==◌, max_u32, Error, Result, ok, err, ok-injective, ◌≡◌, sym, ap, ◌∙◌, inl, inr, arith,
  if◌then◌else◌,
}
use libjcat.Text.{Glib}

-- Two tests in front of a result.
guarded_ok :
    {A : Type 0} (a b : Bool) (e f : Error) (next : Result A) (c : A)
    → (if a then err e else if b then err f else next) ≡ ok c
    → (a ≡ false) × (b ≡ false) × (next ≡ ok c)
guarded_ok a b e f next c h = ground arith

tested_ok :
    {A : Type 0} (a : Bool) (e : Error) (next : Result A) (c : A)
    → (if a then err e else next) ≡ ok c
    → (a ≡ false) × (next ≡ ok c)
tested_ok a e next c h = ground arith

le_of : (m n : ℕ) → ltb m n ≡ false → n ≤ m
le_of m n h = ground arith

size_is : (n : ℕ) → not (n == 32) ≡ false → n ≡ 32
size_is n h = ground arith

payload-join :
    (origin size key blank : Bytes) (lines : List Bytes)
    → payload_of origin size key ++ join newline (blank ∷ lines)
      ≡ join newline (origin ∷ size ∷ key ∷ blank ∷ lines)
payload-join origin size key blank lines = simp append_assoc

length-drop_four : (bs : Bytes) → not (length bs == 64 + 4) ≡ false → length (drop 4 bs) ≡ 64
length-drop_four (a ∷ b ∷ c ∷ d ∷ bs) h = ground arith
length-drop_four _ h = ground arith

module _ (scanner : Scanner) (base64 : Base64) (glib : Glib) where
  -- What the second part sets, with the first part kept.
  record IsSigned (self c : JcatBtCheckpoint) : Type 0 where
    same_size : c.log_size ≡ self.log_size
    same_key : c.blob_pubkey ≡ self.blob_pubkey
    same_payload : c.blob_payload ≡ self.blob_payload
    signature_size : length c.blob_signature ≡ 64

  signed-IsSigned :
      (self c : JcatBtCheckpoint) (identity sig : Bytes)
      → signed scanner base64 glib self identity sig ≡ ok c
      → IsSigned self c
  unfolding signed
  signed-IsSigned self c identity sig h =
      let (size, same) = tested_ok (not (length sig == 64 + 4)) _ _ c h in
      let made = ok-injective same in
      record {
        same_size = sym (ap (λ (x : JcatBtCheckpoint). x.log_size) made);
        same_key = sym (ap (λ (x : JcatBtCheckpoint). x.blob_pubkey) made);
        same_payload = sym (ap (λ (x : JcatBtCheckpoint). x.blob_payload) made);
        signature_size =
            sym (ap (λ (x : JcatBtCheckpoint). length x.blob_signature) made)
            ∙ length-drop_four sig size;
      }

  parse_signature-IsSigned :
      (self c : JcatBtCheckpoint) (sections : List Bytes)
      → parse_signature scanner base64 glib self sections ≡ ok c
      → IsSigned self c
  unfolding parse_signature
  parse_signature-IsSigned self c (mark ∷ identity ∷ text ∷ []) h =
      elim (Bool-cases (beq mark dash)) [
        | inl marked ↦ signed-IsSigned self c identity (base64.decode text) (rw marked at h)
        | inr other ↦ absurd (cc (rw other at h))
      ]
  parse_signature-IsSigned self c _ h = absurd (cc h)

  -- A checkpoint that was made from a text.
  pub record IsCheckpointOf (text : Bytes) (c : JcatBtCheckpoint) : Type 0 where
    pub size_fits : c.log_size ≤ max_u32
    pub key_size : length c.blob_pubkey ≡ 32
    pub signature_size : length c.blob_signature ≡ 64
    pub rest : Bytes
    pub payload_first : c.blob_payload ++ rest ≡ text

  parse_lines-IsCheckpointOf :
      (c : JcatBtCheckpoint) (lines : List Bytes)
      → parse_lines scanner base64 glib lines ≡ ok c
      → IsCheckpointOf (join newline lines) c
  unfolding parse_lines
  parse_lines-IsCheckpointOf c (origin ∷ size ∷ key ∷ blank ∷ signature ∷ end ∷ []) h =
      let (fits, whole, next) =
        guarded_ok (ltb max_u32 (scanner.strtoull size)) (not (length (base64.decode key) == 32)) _
          _ _ c h in
      let first : JcatBtCheckpoint = record {
        log_size = scanner.strtoull size;
        origin = origin;
        identity = [];
        hash = [];
        blob_pubkey = base64.decode key;
        blob_signature = [];
        blob_payload = payload_of origin size key;
      } in
      let s = parse_signature-IsSigned first c (scanner.strsplit signature space 3) next in
      record {
        size_fits = rw (s.same_size) (le_of max_u32 (scanner.strtoull size) fits);
        key_size = ap length s.same_key ∙ size_is (length (base64.decode key)) whole;
        signature_size = s.signature_size;
        rest = join newline (blank ∷ signature ∷ end ∷ []);
        payload_first =
            rw (s.same_payload) (payload-join origin size key blank (signature ∷ end ∷ []));
      }
  parse_lines-IsCheckpointOf c _ h = absurd (cc h)

  -- A text from which a checkpoint is made starts with the text that is signed; the checkpoint has a
  -- public key of 32 bytes, a signature of 64 bytes and a size that fits the type guint.
  pub new-IsCheckpointOf :
      (blob : Bytes) (c : JcatBtCheckpoint)
      → SplitLaws scanner
      → new scanner base64 glib blob ≡ ok c
      → IsCheckpointOf (c_string blob) c
  unfolding new
  new-IsCheckpointOf blob c laws h =
      subst (λ t. IsCheckpointOf t c) (laws.join-strsplit newline (c_string blob))
        (parse_lines-IsCheckpointOf c _ h)
