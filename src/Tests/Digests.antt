-- ===== src/Tests/Digests.antt =====
-- The hashes of two files.
use zapshare.Base.{
  ◌%◌, ◌≡◌, ◌↔◌, Bytes, codes, [], ◌∷◌, map, some, All, arith, append-nil, append_assoc,
}
use zapshare.FileHash.{Sha256, Sha256Laws, compute_file_hash}
use zapshare.FileHash.Digests.{IsByte, digest, compute_file_hash-eq}
use zapshare.Tests.World.{sha}

-- A digest of bytes: each number of the text, cut to a byte.
abbrev byte_sha : Sha256
byte_sha = record sha { final = λ s. map (λ b. b % 256) s }

byte_sha-laws : Sha256Laws byte_sha
byte_sha-laws = record { update-nil = append-nil; update-append = append_assoc }

cut-IsByte : (s : Bytes) → All IsByte (map (λ b. b % 256) s)
cut-IsByte [] = tt
cut-IsByte (b ∷ s) = (omega arith, cut-IsByte s)

compute_file_hash-eq_example :
    (compute_file_hash byte_sha (some (codes "ab"))
      ≡ compute_file_hash byte_sha (some (codes "ac")))
    ↔ (digest byte_sha byte_sha-laws cut-IsByte (codes "ab")
        ≡ digest byte_sha byte_sha-laws cut-IsByte (codes "ac"))
compute_file_hash-eq_example =
    compute_file_hash-eq byte_sha byte_sha-laws cut-IsByte (codes "ab") (codes "ac")
