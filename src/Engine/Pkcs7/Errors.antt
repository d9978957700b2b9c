-- ===== src/Engine/Pkcs7/Errors.antt =====
-- libjcat/jcat-gnutls-common.c: `jcat_gnutls_rc_to_error`, with the prefix that its callers put in front.
use libjcat.Engine.{Action}
use libjcat.Engine.Pkcs7.Interface.{
  GnutlsX509, Call, Reply, gives, fails, Rc, ecc_unsupported_curve, insufficient_credentials,
  insufficient_security, no_certificate_found, unimplemented_feature, unknown_algorithm,
  unknown_cipher_type, unknown_compression_algorithm, unknown_hash_algorithm, unknown_pk_algorithm,
  unknown_pkcs_content_type, unsupported_certificate_type, unsupported_signature_algorithm,
  unwanted_algorithm, x509_certificate_error, x509_unsupported_attribute,
  x509_unsupported_critical_extension, x509_unsupported_extension, base64_decoding_error,
  certificate_key_mismatch, decryption_failed, key_usage_violation, pk_decryption_failed,
  pk_encryption_failed, pk_sign_failed, pk_sig_verify_failed, short_memory_buffer,
  unexpected_packet_length, unknown_cipher_suite,
}
use libjcat.Prelude.{
  [], ◌∷◌, ◌++◌, Bytes, codes, Code, invalid_data, not_supported, failed, Error, Result, ok, err,
}

-- The cases of `jcat_gnutls_rc_to_error`.
unfoldable pub rc_code : Rc → Code
rc_code ecc_unsupported_curve = not_supported
rc_code insufficient_credentials = not_supported
rc_code insufficient_security = not_supported
rc_code no_certificate_found = not_supported
rc_code unimplemented_feature = not_supported
rc_code unknown_algorithm = not_supported
rc_code unknown_cipher_type = not_supported
rc_code unknown_compression_algorithm = not_supported
rc_code unknown_hash_algorithm = not_supported
rc_code unknown_pk_algorithm = not_supported
rc_code unknown_pkcs_content_type = not_supported
rc_code unsupported_certificate_type = not_supported
rc_code unsupported_signature_algorithm = not_supported
rc_code unwanted_algorithm = not_supported
rc_code x509_certificate_error = not_supported
rc_code x509_unsupported_attribute = not_supported
rc_code x509_unsupported_critical_extension = not_supported
rc_code x509_unsupported_extension = not_supported
rc_code base64_decoding_error = invalid_data
rc_code certificate_key_mismatch = invalid_data
rc_code decryption_failed = invalid_data
rc_code key_usage_violation = invalid_data
rc_code pk_decryption_failed = invalid_data
rc_code pk_encryption_failed = invalid_data
rc_code pk_sign_failed = invalid_data
rc_code pk_sig_verify_failed = invalid_data
rc_code short_memory_buffer = invalid_data
rc_code unexpected_packet_length = invalid_data
rc_code unknown_cipher_suite = invalid_data
rc_code _ = failed

module _ {World : Type 0} (tls : GnutlsX509 World) where
  -- `jcat_gnutls_rc_to_error` of a negative code.
  unfoldable pub rc_to_error : Rc → Error
  unfolding rc_code
  rc_to_error rc = record {
    code = rc_code rc;
    message = codes "%s [%i]";
    values = tls.strerror rc ∷ tls.rc_digits rc ∷ [];
  }

  -- g_prefix_error_literal.
  abbrev pub prefixed : Bytes → Error → Error
  prefixed prefix e = record e { message = prefix ++ e.message }

  -- A call whose failure is turned into an error with a prefix.
  abbrev pub or_prefixed : {A : Type 0} → Bytes → Reply A → Result A
  or_prefixed prefix (gives a) = ok a
  or_prefixed prefix (fails rc) = err (prefixed prefix (rc_to_error rc))

  abbrev pub call : {A : Type 0} → Bytes → Call World A → Action World A
  call prefix f w = (or_prefixed prefix (f w).0, (f w).1)
