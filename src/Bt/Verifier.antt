-- ===== src/Bt/Verifier.antt =====
-- libjcat/jcat-bt-verifier.c: the object JcatBtVerifier, `jcat_bt_verifier_new`, which makes it from
-- the text of a verifier key, and its printing.
use libjcat.Bt.Checkpoint.{invalid}
use libjcat.Bt.Split.{Scanner, plus}
use libjcat.Json.{Base64}
use libjcat.Prelude.{
  ℕ, ◌+◌, not, none, some, List, [], ◌∷◌, Bytes, codes, c_string, length, ◌==◌, Result, ok, err,
  if◌then◌else◌,
}
use libjcat.Text.{Glib, append_kv, append_kx}

-- The struct _JcatBtVerifier.
pub record JcatBtVerifier : Type 0 where
  pub name : Bytes
  pub hash : Bytes
  pub alg : ℕ
  pub blob_key : Bytes

module _ (scanner : Scanner) (base64 : Base64) where
  -- "algorithm ID then ED25519 public key": the test of the size, and the bytes.
  unfoldable pub parse_key : Bytes → Bytes → Bytes → Result JcatBtVerifier
  parse_key name hash [] = err (invalid (codes "invalid pubkey format") [])
  parse_key name hash (alg ∷ key) =
      if not (length (alg ∷ key) == 33)
      then err (invalid (codes "invalid pubkey format") [])
      else ok (record { name = name; hash = hash; alg = alg; blob_key = key })

  unfoldable pub parse_sections : List Bytes → Result JcatBtVerifier
  unfolding parse_key
  parse_sections (name ∷ hash ∷ text ∷ []) = parse_key name hash (base64.decode text)
  parse_sections _ = err (invalid (codes "invalid pubkey format") [])

  -- `jcat_bt_verifier_new`; g_strndup ends the text at a NUL.
  unfoldable pub new : Bytes → Result JcatBtVerifier
  unfolding parse_sections
  new blob = parse_sections (scanner.strsplit (c_string blob) plus 3)

module _ (glib : Glib) where
  -- `jcat_bt_verifier_add_string`, of an object that is complete, with the name of its type.
  unfoldable pub add_string : Bytes → JcatBtVerifier → ℕ → Bytes → Bytes
  unfolding append_kv append_kx
  add_string type_name self idt str =
      let str = append_kv glib idt (some type_name) none str in
      let str = append_kv glib (idt + 1) (some (codes "Name")) (some self.name) str in
      let str = append_kv glib (idt + 1) (some (codes "Hash")) (some self.hash) str in
      let str =
        if not (self.alg == 0)
        then append_kx glib (idt + 1) (some (codes "AlgoId")) self.alg str
        else str in
      append_kx glib (idt + 1) (some (codes "KeySz")) (length self.blob_key) str

  -- `jcat_bt_verifier_to_string`.
  unfoldable pub to_string : Bytes → JcatBtVerifier → Bytes
  unfolding add_string
  to_string type_name self = add_string type_name self 0 []
