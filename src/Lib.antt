-- ===== src/Lib.antt =====
-- Verification library of the image resizing service.
--
-- The service takes a signed path, checks the signature, parses the path into options and a source,
-- turns these into a query, settles the format by the `Accept` header, derives a cache key from the
-- query, and serves the stored result or has one task produce it: download the source, transform
-- it, encode it. The library models these parts by functions on byte texts and plain data, and the
-- tasks that work on one key at the same time by a step relation.
--
--   Prelude   shared names, the result monad, lists, and the floating-point types as a parameter
--   Text      UTF-8 texts as lists of bytes; the `str` operations that the program calls
--   Models    src/models/params.rs: the types of a query and their texts
--   Url       src/modules/url: `Url/Options` is options.rs (Values: the value parsers; Arms: one
--             function per option code; Parse: the loop over the segments), `Url/Presets` is
--             presets.rs, `Url/Source` is source.rs, `Url/Request` is mod.rs
--   Signing   src/modules/signing: the configuration of the keys, `sign` and `verify`
--   MetricsAuth  src/modules/metrics_auth: the token of the metrics endpoint and its check
--   Negotiation  src/modules/negotiation.rs: the choice of a format by an `Accept` header
--   Cache     src/services/cache/handler.rs: `generate_key` and the fields that it hashes
--   Storage   src/services/storage: `KeyValidation` is key_validation.rs, `Backend` the trait of a
--             backend with the in-memory one, which is compiled for tests only, `Service` the
--             handler, `LocalFs` the paths of the local backend
--   Resize    src/services/resize/handler.rs: `ResizeService::resize` and `InFlightGuard`
--             among tasks that interleave; `Resize/Work` is one request from the cache check to the
--             upload, which calls `Download`, `Image/Pipeline` and `Storage/Service`
--   Avif      src/services/image/avif_meta.rs (Cursor, Boxes, Transforms, Exif;
--             Motions: the meaning of the transforms, apart from the reader's)
--   SourceGuard  src/services/image/source_guard.rs (Literals: the numeric spellings of an address;
--             Numerals: the numerals themselves; Allowlist: the listed sources)
--   Download  src/services/image/handler.rs: `download_image`, its redirects and its size limit
--   Image     src/services/image/handler.rs: `MaxBytes` (the search of a quality), `Sizing` (the box
--             of a resize and the scale of a JPEG decoder), `Geometry` (crop and extend), `Trimming`
--             (the borders), `Exif` (the orientation patch), `Detect` (the format of a source),
--             `Pipeline` (the stages of `process_image` in order)
--   Api       src/modules/api: `Handling` is about the handler of a signed path, `Files` the endpoint
--             of stored files; src/modules/utils/err.rs: `Errors`, the errors and their statuses
--   Utils     src/modules/utils: `Date` and `Etag`
--   Tests     concrete inputs
--
-- `Url/Request` calls `Url/Options`, `Url/Presets` and `Url/Source`, and makes the query of `Models`
-- that `Cache` hashes; the key of `Cache` is what `Storage` checks and what `Resize` registers.
-- `Api/Handling` calls `Signing`, `Url/Request` and `Negotiation`, then the resize service;
-- `Download` asks `SourceGuard` about every address, and `Image/Pipeline` applies `Image/Trimming`,
-- `Image/Geometry`, `Image/Sizing` and `Image/MaxBytes` in the order of the program.
--
-- Parameters. `Prelude/Floats` holds the types `f32` and `f64` with the operations used and, as
-- `FloatLaws`, what the language documents of them. `Url/Codecs` holds the decoders of the packages
-- base64 and urlencoding. SHA-256 is an argument of `generate_key`; where its shape matters, the
-- hypothesis `IsHexDigest` says that it prints as 64 lower-case hexadecimal digits. In `SourceGuard`
-- the packages ipnet and url are records, `IpNetLaws` says what ipnet documents, and the answers of
-- the `IpAddr` parser and of DNS are arguments. The keyed hash and the base64 of `Signing` are
-- the record `Crypto` with `CryptoLaws`. The package image and the pixel loops of the handler are the
-- records `ImageCrate` and `PixelWork`, of which `SizeLaws` says that drawing over an image and changing
-- its colours keep its size. The answers of the network are the record `Network`.
--
-- Conventions. A mutable option record is passed from arm to arm; an error is a constructor with the
-- data that its message prints. Numbers are natural numbers with the range check of the integer type
-- that the program parses into, and the length prefix of a hashed field is taken modulo 2 ^ 32. The
-- preset map is an association list whose names are distinct. All functions are total by structural
-- recursion but two: reading UTF-8 and printing a number count their input down, the number of bytes
-- and the number itself being enough. The download takes as many rounds as redirects are allowed and
-- one more, the search of a quality at most six attempts after the first, and the search
-- of a border ends at the side of the image.
--
-- In `Resize` a step is what a task does between two await points. A channel bears the number of the
-- task that opened it. Removing an entry and sending the outcome in `InFlightGuard::drop` are one
-- step, and so is the work of a leader, whose outcome is arbitrary.
--
-- `Avif` passes the budget of boxes, 4096 for a file, from walk to walk and counts it down, as the
-- program does, so its loops end without added fuel. A read that fails is `none`.
--
-- Not modelled: the values of pixels, so the drawing of watermarks, decoders, encoders and animations;
-- the object store of S3 and the operations on files, which are input and output; the router and the
-- middlewares besides the one of the metrics, the configuration and the binaries; the text of a date
-- in a header.
pub mod Prelude
pub mod Text
pub mod Models
pub mod Url
pub mod Cache
pub mod Storage
pub mod Resize
pub mod Avif
pub mod SourceGuard
mod Tests
pub mod Signing
pub mod Negotiation
pub mod MetricsAuth
pub mod Api
pub mod Image
pub mod Utils
pub mod Download
