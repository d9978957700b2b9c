-- ===== src/Bt/Notes.antt =====
-- libjcat/jcat-bt-checkpoint.c and libjcat/jcat-bt-verifier.c read back what a log publishes: the
-- signed note of a checkpoint, and the text of a verifier key.
use libjcat.Bt.Checkpoint
use libjcat.Bt.Checkpoint.{
  JcatBtCheckpoint, dash, payload_of, key_hint, signed, parse_signature, parse_lines,
}
use libjcat.Bt.Split.{Scanner, SplitLaws, newline, space, plus, join, Free}
use libjcat.Bt.Verifier
use libjcat.Bt.Verifier.{JcatBtVerifier, parse_key, parse_sections}
use libjcat.Json.Laws.{Base64Laws}
use libjcat.Json.{Base64}
use libjcat.Prelude.{
  Error, err, ltb, if◌then◌else◌, ℕ, ◌≤◌, All, List, [], ◌∷◌, ◌++◌, Bytes, c_string_self, IsText,
  length, drop, max_u32, Result, ok, ◌≡◌, refl, arith,
}
use libjcat.Text.{Glib}

-- What a log signs: its name, the number of its entries, as a text and as the number, and its key.
pub record Head : Type 0 where
  pub origin : Bytes
  pub size_text : Bytes
  pub log_size : ℕ
  pub pubkey : Bytes

module _ (base64 : Base64) where
  -- The line with the signature: the four bytes that hint at the key are in front of it.
  abbrev pub signature_line : Bytes → Bytes → Bytes
  signature_line identity sig = dash ++ space ∷ identity ++ space ∷ base64.encode sig

  -- The lines of the signed note; the note ends with a newline.
  abbrev pub note_lines : Head → Bytes → Bytes → List Bytes
  note_lines head identity sig =
      head.origin
      ∷ head.size_text
      ∷ base64.encode head.pubkey
      ∷ []
      ∷ signature_line identity sig
      ∷ []
      ∷ []

  abbrev pub note : Head → Bytes → Bytes → Bytes
  note head identity sig = join newline (note_lines head identity sig)

  -- The text of a verifier key.
  abbrev pub verifier_text : JcatBtVerifier → Bytes
  verifier_text v = v.name ++ plus ∷ v.hash ++ plus ∷ base64.encode (v.alg ∷ v.blob_key)

at_most :
    {A : Type 0} (n m : ℕ) (e : Error) (a : Result A) → n ≤ m → (if ltb m n then err e else a) ≡ a
at_most n m e a h = ground arith

module _ (scanner : Scanner) (base64 : Base64) (glib : Glib) (laws : SplitLaws scanner)
    (coding : Base64Laws base64) where
  -- A signed note without a NUL, whose lines have no newline in them, whose signer has no space in
  -- its name, with a key of 32 bytes, a number of entries that fits the type guint and 68 bytes of
  -- hint and signature, is read as the checkpoint that has these parts.
  pub new-note :
      (head : Head) (identity sig : Bytes)
      → IsText (note base64 head identity sig)
      → All (Free newline) (note_lines base64 head identity sig)
      → Free space identity
      → scanner.strtoull head.size_text ≡ head.log_size
      → head.log_size ≤ max_u32
      → length head.pubkey ≡ 32
      → length sig ≡ 68
      → Checkpoint.new scanner base64 glib (note base64 head identity sig)
        ≡ ok (record {
          log_size = head.log_size;
          origin = head.origin;
          identity = identity;
          hash = key_hint scanner sig;
          blob_pubkey = head.pubkey;
          blob_signature = drop 4 sig;
          blob_payload = payload_of head.origin head.size_text (base64.encode head.pubkey);
        })
  unfolding Checkpoint.new parse_lines parse_signature signed
  new-note head identity sig is_text free one_word number fits key_size sig_size =
      rw
        (
          c_string_self _ is_text,
          laws.strsplit-join newline head.origin head.size_text _ free,
          number,
          coding.decode-encode head.pubkey,
          laws.strsplit-three space dash identity (base64.encode sig)
              (omega arith, (omega arith, (omega arith, tt))) one_word,
          coding.decode-encode sig,
          key_size,
          sig_size,
        )
        (at_most head.log_size max_u32 _ _ fits)

  -- The text of a verifier key without a NUL, with a name and a hash that have no plus in them and a
  -- key of 32 bytes, is read as that verifier.
  pub new-verifier_text :
      (v : JcatBtVerifier)
      → IsText (verifier_text base64 v)
      → Free plus v.name
      → Free plus v.hash
      → length v.blob_key ≡ 32
      → Verifier.new scanner base64 (verifier_text base64 v) ≡ ok v
  unfolding Verifier.new parse_sections parse_key
  new-verifier_text v is_text free_name free_hash size =
      rw
        (
          c_string_self _ is_text,
          laws.strsplit-three plus v.name v.hash _ free_name free_hash,
          coding.decode-encode (v.alg ∷ v.blob_key),
          size,
        )
        refl
