-- ===== src/Header/Finalize.antt =====
-- The header of an emitted file is read back, before and after its hashes are filled in.
use droidsaw_dex.Prelude.{
  ℕ, zero, suc, ◌+◌, ◌-◌, ◌<◌, ◌≡◌, refl, sym, ap, ◌∙◌, arith, true, List, [], ◌∷◌, ◌++◌, length,
  length-append, drop, le→leb, ==_iff, take,
}
use droidsaw_dex.Prelude.Errors.{ok}
use droidsaw_dex.Prelude.Words.{u32_mod}
use droidsaw_dex.Decode.Reader.Bounds.{drop-append}
use droidsaw_dex.Emit.Payload.{le_bytes}
use droidsaw_dex.Emit.Header.{
  HeaderLayout, emit_header, emit_sections, no_signature, copy_at, finalize_checksums,
}
use droidsaw_dex.Header.{DexHeader, any_eq, supported_versions, parse, get_range, verify_checksum}
use droidsaw_dex.Header.RoundTrip.{IsU32, parsed, head_bytes, parse-laid_out}

-- The header is its first 32 bytes, with empty hashes, and the sections.
emit_header-head_bytes :
    (l : HeaderLayout) (rest version : List ℕ)
    → length version ≡ 3
    → emit_header (record l { version = version }) ++ rest
      ≡ head_bytes version 0 no_signature ++ (emit_sections l ++ rest)
unfolding emit_header emit_sections
emit_header-head_bytes l rest [] three = absurd (omega arith)
emit_header-head_bytes l rest (a ∷ []) three = absurd (omega arith)
emit_header-head_bytes l rest (a ∷ b ∷ []) three = absurd (omega arith)
emit_header-head_bytes l rest (a ∷ b ∷ c ∷ d ∷ v) three = absurd (omega arith)
emit_header-head_bytes l rest (a ∷ b ∷ c ∷ []) three = refl

-- A header that is emitted for a supported version and for fields that are u32 is parsed, in front
-- of anything, to these fields, with no link section and with empty hashes.
pub parse-emit_header :
    (l : HeaderLayout) (rest : List ℕ)
    → length l.version ≡ 3
    → any_eq supported_versions l.version ≡ true
    → IsU32 l
    → parse (emit_header l ++ rest) ≡ ok (parsed l 0 no_signature)
parse-emit_header l rest three supported lt =
    rw (emit_header-head_bytes l rest l.version three)
      (parse-laid_out l 0 no_signature rest three supported lt (omega arith) refl)

length-head_bytes :
    (version : List ℕ) (checksum : ℕ) (signature rest : List ℕ)
    → length version ≡ 3
    → length signature ≡ 20
    → length (head_bytes version checksum signature ++ rest) ≡ 32 + length rest
length-head_bytes version checksum signature rest three twenty = omega (
  arith,
  length-append (head_bytes version checksum signature) rest,
  length-append version (0 ∷ (le_bytes checksum ++ signature)),
)

drop-head_bytes :
    (version : List ℕ) (checksum : ℕ) (signature rest : List ℕ)
    → length version ≡ 3
    → length signature ≡ 20
    → drop 32 (head_bytes version checksum signature ++ rest) ≡ rest
drop-head_bytes version checksum signature rest three twenty =
    drop-append (head_bytes version checksum signature) rest 32 0 (
      omega (
        arith,
        length-append (head_bytes version checksum signature) rest,
        length-append version (0 ∷ (le_bytes checksum ++ signature)),
      ))

-- What finalize_checksums makes of such bytes.
finalize_checksums-head_bytes :
    (sha1 : List ℕ → List ℕ) (adler32 : List ℕ → ℕ) (version body : List ℕ)
    → length version ≡ 3
    → length (sha1 body) ≡ 20
    → finalize_checksums sha1 adler32 (head_bytes version 0 no_signature ++ body)
      ≡ ok (head_bytes version (adler32 (sha1 body ++ body)) (sha1 body) ++ body)
unfolding finalize_checksums copy_at
finalize_checksums-head_bytes sha1 adler32 [] body three twenty = absurd (omega arith)
finalize_checksums-head_bytes sha1 adler32 (a ∷ []) body three twenty = absurd (omega arith)
finalize_checksums-head_bytes sha1 adler32 (a ∷ b ∷ []) body three twenty = absurd (omega arith)
finalize_checksums-head_bytes sha1 adler32 (a ∷ b ∷ c ∷ d ∷ v) body three twenty =
    absurd (omega arith)
finalize_checksums-head_bytes sha1 adler32 (a ∷ b ∷ c ∷ []) body three twenty =
    rw (
      le→leb 32 (length (head_bytes (a ∷ b ∷ c ∷ []) 0 no_signature ++ body)) (omega arith),
      twenty,
    )

take_all : (n : ℕ) (xs : List ℕ) → n ≡ length xs → take n xs ≡ xs
take_all zero [] e = refl
take_all zero (x ∷ xs) e = absurd (omega arith)
take_all (suc n) [] e = absurd (omega arith)
take_all (suc n) (x ∷ xs) e = ap (λ zs. x ∷ zs) (take_all n xs (omega arith))

-- The checksum over everything from byte 12 on is accepted.
verify_checksum-head_bytes :
    (adler32 : List ℕ → ℕ) (l : HeaderLayout) (version signature body : List ℕ)
    → length version ≡ 3
    → length signature ≡ 20
    → l.file_size ≡ 32 + length body
    → verify_checksum adler32
        (parsed l (adler32 (signature ++ body)) signature)
        (head_bytes version (adler32 (signature ++ body)) signature ++ body)
      ≡ ok tt
unfolding verify_checksum get_range
verify_checksum-head_bytes adler32 l [] signature body three twenty size = absurd (omega arith)
verify_checksum-head_bytes adler32 l (a ∷ []) signature body three twenty size =
    absurd (omega arith)
verify_checksum-head_bytes adler32 l (a ∷ b ∷ []) signature body three twenty size =
    absurd (omega arith)
verify_checksum-head_bytes adler32 l (a ∷ b ∷ c ∷ d ∷ v) signature body three twenty size =
    absurd (omega arith)
verify_checksum-head_bytes adler32 l (a ∷ b ∷ c ∷ []) signature body three twenty size =
    let total = length-append signature body in
    let bytes = head_bytes (a ∷ b ∷ c ∷ []) (adler32 (signature ++ body)) signature ++ body in
    rw (
      le→leb l.file_size (length bytes) (omega (arith, total)),
      le→leb 12 l.file_size (omega arith),
      take_all (l.file_size - 12) (signature ++ body) (omega (arith, total)),
      (==_iff (adler32 (signature ++ body)) (adler32 (signature ++ body))).1 refl,
    )

-- A file whose header was emitted, for a supported version, with u32 fields and with the length of
-- the file, can be finalized, and what results is parsed to these fields, to the digest of all
-- behind the signature and to a checksum that verify_checksum accepts for it. This is for a digest
-- of 20 bytes and a checksum that is a u32.
pub verify_checksum-finalize_checksums :
    (sha1 : List ℕ → List ℕ) (adler32 : List ℕ → ℕ) (l : HeaderLayout) (body : List ℕ)
    → ((bytes : List ℕ) → length (sha1 bytes) ≡ 20)
    → ((bytes : List ℕ) → adler32 bytes < u32_mod)
    → length l.version ≡ 3
    → any_eq supported_versions l.version ≡ true
    → IsU32 l
    → l.file_size ≡ length (emit_header l ++ body)
    → (out : List ℕ) × (h : DexHeader) × (finalize_checksums sha1 adler32 (emit_header l ++ body)
        ≡ ok out)
      × (parse out ≡ ok h)
      × (verify_checksum adler32 h out ≡ ok tt)
      × (h ≡ parsed l h.checksum (sha1 (drop 32 out)))
verify_checksum-finalize_checksums sha1 adler32 l body digest small three supported lt size =
    let rest = emit_sections l ++ body in
    let signature = sha1 rest in
    let checksum = adler32 (signature ++ rest) in
    let out = head_bytes l.version checksum signature ++ rest in
    let laid = emit_header-head_bytes l body l.version three in
    (
      out,
      parsed l checksum signature,
      rw laid (finalize_checksums-head_bytes sha1 adler32 l.version rest three (digest rest)),
      parse-laid_out l checksum signature body three supported lt (small (signature ++ rest))
          (digest rest),
      verify_checksum-head_bytes adler32 l l.version signature rest three (digest rest)
          (size ∙ ap length laid ∙ length-head_bytes l.version 0 no_signature rest three refl),
      ap (λ b. parsed l checksum (sha1 b))
          (sym (drop-head_bytes l.version checksum signature rest three (digest rest))),
    )
