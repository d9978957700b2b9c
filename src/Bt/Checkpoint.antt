-- ===== src/Bt/Checkpoint.antt =====
-- libjcat/jcat-bt-checkpoint.c: the object JcatBtCheckpoint, `jcat_bt_checkpoint_new`, which makes it
-- from a signed note, and its printing. Only what is complete leaves the constructor.
use libjcat.Bt.Split.{Scanner, newline, space}
use libjcat.Json.{Base64}
use libjcat.Prelude.{
  ℕ, ◌+◌, not, none, some, List, [], ◌∷◌, ◌++◌, Bytes, codes, c_string, beq, length, drop, ltb,
  ◌==◌, max_u32, Error, invalid_data, Result, ok, err, if◌then◌else◌,
}
use libjcat.Text.{Glib, append_kv, append_kx}

-- The struct _JcatBtCheckpoint.
pub record JcatBtCheckpoint : Type 0 where
  pub log_size : ℕ
  pub origin : Bytes
  pub identity : Bytes
  pub hash : Bytes
  pub blob_pubkey : Bytes
  pub blob_signature : Bytes
  pub blob_payload : Bytes

abbrev pub invalid : Bytes → List Bytes → Error
invalid message values = record { code = invalid_data; message = message; values = values }

-- The dash in front of a signature, in UTF-8.
abbrev pub dash : Bytes
dash = 226 ∷ 128 ∷ 148 ∷ []

-- "add as strings": the text that is signed.
abbrev pub payload_of : Bytes → Bytes → Bytes → Bytes
payload_of origin size key = origin ++ newline ∷ size ++ newline ∷ key ++ newline ∷ []

module _ (scanner : Scanner) where
  -- The first four bytes of a signature as text.
  abbrev pub key_hint : Bytes → Bytes
  key_hint (a ∷ b ∷ c ∷ d ∷ sig) =
      scanner.hex_byte a ++ (scanner.hex_byte b ++ (scanner.hex_byte c ++ scanner.hex_byte d))
  key_hint _ = []

module _ (scanner : Scanner) (base64 : Base64) (glib : Glib) where
  abbrev bad_sections : List Bytes → Error
  bad_sections sections =
      invalid (codes "invalid checkpoint format, sections %x") (glib.hex (length sections) ∷ [])

  abbrev bad_signature : Bytes → Error
  bad_signature sig =
      invalid (codes "invalid pubkey format, sigsz was 0x%x") (glib.hex (length sig) ∷ [])

  -- The test of the size of the signature, and what is set from it.
  unfoldable pub signed : JcatBtCheckpoint → Bytes → Bytes → Result JcatBtCheckpoint
  signed self identity sig =
      if not (length sig == 64 + 4)
      then err (bad_signature sig)
      else ok (record self {
        identity = identity;
        hash = key_hint scanner sig;
        blob_signature = drop 4 sig;
      })

  -- "ORIGIN BASE64" behind a dash.
  unfoldable pub parse_signature : JcatBtCheckpoint → List Bytes → Result JcatBtCheckpoint
  unfolding signed
  parse_signature self (mark ∷ identity ∷ text ∷ []) =
      if beq mark dash
      then signed self identity (base64.decode text)
      else err (bad_sections (mark ∷ identity ∷ text ∷ []))
  parse_signature self sections = err (bad_sections sections)

  -- The size and the key, behind the test of the number of lines.
  unfoldable pub parse_lines : List Bytes → Result JcatBtCheckpoint
  unfolding parse_signature
  parse_lines (origin ∷ size ∷ key ∷ _ ∷ signature ∷ _ ∷ []) =
      let log_size = scanner.strtoull size in
      let pubkey = base64.decode key in
      if ltb max_u32 log_size
      then err (invalid (codes "invalid log size") [])
      else if not (length pubkey == 32)
      then err
          (invalid (codes "invalid pubkey format, pubkeysz 0x%x") (glib.hex (length pubkey) ∷ []))
      else parse_signature
          (record {
            log_size = log_size;
            origin = origin;
            identity = [];
            hash = [];
            blob_pubkey = pubkey;
            blob_signature = [];
            blob_payload = payload_of origin size key;
          })
          (scanner.strsplit signature space 3)
  parse_lines lines =
      err (invalid (codes "invalid checkpoint format, lines %u") (glib.decimal (length lines) ∷ []))

  -- `jcat_bt_checkpoint_new`; g_strndup ends the text at a NUL.
  unfoldable pub new : Bytes → Result JcatBtCheckpoint
  unfolding parse_lines
  new blob = parse_lines (scanner.strsplit (c_string blob) newline 0)

  -- `jcat_bt_checkpoint_add_string`, of an object that is complete, with the name of its type.
  unfoldable pub add_string : Bytes → JcatBtCheckpoint → ℕ → Bytes → Bytes
  unfolding append_kv append_kx
  add_string type_name self idt str =
      let str = append_kv glib idt (some type_name) none str in
      let str = append_kv glib (idt + 1) (some (codes "Origin")) (some self.origin) str in
      let str =
        append_kv glib (idt + 1) (some (codes "OriginSignature")) (some self.identity) str in
      let str =
        if not (self.log_size == 0)
        then append_kx glib (idt + 1) (some (codes "TreeSize")) self.log_size str
        else str in
      let str =
        append_kx glib (idt + 1) (some (codes "BlobPubkeySz")) (length self.blob_pubkey) str in
      let str =
        append_kx glib (idt + 1) (some (codes "BlobSignatureSz")) (length self.blob_signature)
          str in
      append_kx glib (idt + 1) (some (codes "BlobPayloadSz")) (length self.blob_payload) str

  -- `jcat_bt_checkpoint_to_string`.
  unfoldable pub to_string : Bytes → JcatBtCheckpoint → Bytes
  unfolding add_string
  to_string type_name self = add_string type_name self 0 []
