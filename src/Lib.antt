-- ===== src/Lib.antt =====
-- A model of libjcat, the library that reads, writes and verifies Jcat files: gzipped JSON
-- documents that hold detached checksums and signatures.
--
-- A file (libjcat/jcat-file.c) is a list of items with a version, an item (libjcat/jcat-item.c) has
-- an ID, aliases and blobs, and a blob (libjcat/jcat-blob.c) is a checksum or a signature with its
-- kind. A context (libjcat/jcat-context.c) owns one engine (libjcat/jcat-engine.c) for each kind of
-- blob that the build supports, and verifies the blobs of an item with them; each success is a
-- result (libjcat/jcat-result.c). The tool (libjcat/jcat-tool.c) does this from the command line.
--
-- Which file models which part:
--   Kind     the enumerations of libjcat/jcat-blob.h, the flags, and the names of kinds
--   Blob     libjcat/jcat-blob.c; Import and Export hold `jcat_blob_import` and `jcat_blob_export`
--   Item     libjcat/jcat-item.c, in the same way
--   File     libjcat/jcat-file.c, in the same way; Streams holds the functions on streams and
--            files, and Store puts a changed item back
--   Bits     the bit operations of libjcat/jcat-common.c
--   Text     the lines of its pretty printing; Printer holds the functions that print the objects
--   System   GIO and the file functions of GLib as a record; Contents holds the functions on files
--            of libjcat/jcat-common.c, Laws what is relied on, Kept what they leave in the
--            files, and Memory a model of the laws
--   Result   libjcat/jcat-result.c
--   Engine   libjcat/jcat-engine.c; Checksum holds libjcat/jcat-sha1-engine.c and its likes,
--            Ed25519 libjcat/jcat-gnutls-ed25519-engine.c, Pkcs7 libjcat/jcat-gnutls-pkcs7-engine.c with
--            libjcat/jcat-gnutls-common.c, Libcrypto libjcat/jcat-libcrypto-pkcs7-engine.c with
--            libjcat/jcat-libcrypto-common.c, Gpg libjcat/jcat-gpg-engine.c, and Cell what an engine
--            keeps in its own object
--   Context  libjcat/jcat-context.c; Verify holds `jcat_context_verify_item` and
--            `jcat_context_verify_target`, Steps what their loops do with a blob, Keys `jcat_context_add_public_keys`
--   Bt       libjcat/jcat-bt-checkpoint.c and libjcat/jcat-bt-verifier.c
--   Tool     libjcat/jcat-tool.c: Signing, Writing, Verify and Aliases hold the commands, Sources what an
--            item is verified against, Detect the guess of a format, Menu the table of commands and Main `main`
--   Json     the calls of json-glib and of Base64 as records, the laws that are relied on, and a
--            model of the laws (Json/Tree)
--   Examples runs on concrete values
--
-- A function keeps its name without the prefix of its type: `jcat_item_add_alias_id` is
-- Item.add_alias_id. A function that changes an object returns the new object, and one that sets a
-- GError returns a Result; where both happen, both come back. GPtrArray and JsonArray are lists,
-- strings and GBytes are lists of bytes, a nullable pointer is an Option, and guint32 values are
-- natural numbers, reduced modulo 2^32 where C converts. An item that a lookup gives is a reference:
-- a change of it is a change of the file at its place (File/Store).
--
-- What reads or changes something outside the objects is an action on a world, of which nothing is
-- assumed but the named laws. Parameters are json-glib, Base64, GIO with its compressor, what is
-- called of GLib to print and to split texts, the clock, the checksums of GLib, GnuTLS, OpenSSL, GPGME,
-- the class functions of the engines, what the compiler makes of a shift by 64 or more, and its bit
-- intrinsics. The clock of an import is a function of the number of blobs made so far. All loops run
-- over lists, or a number of times that is given, but for one over an iterator of GnuTLS: it recurses on
-- an argument that says that this iterator ends. So no fuel is needed.
--
-- Not modelled: reference counts and the freeing of objects; the messages to the debug log; the
-- parser of the options of the tool, its handlers of signals and its translations; and what is
-- compiled on Windows alone.
pub mod Prelude
pub mod Bits
pub mod Kind
pub mod Json
pub mod Blob
pub mod Item
pub mod File
pub mod Result
pub mod Engine
pub mod Context
pub mod Examples
pub mod Text
pub mod System
pub mod Tool
pub mod Bt
