-- ===== src/Bencode/Accepts.antt =====
-- What the two parsers of torrent metadata accept.
use tortor.Prelude.{
  ℕ, ◌≤◌, ◌≡◌, refl, ◌∙◌, inl, inr, Bool, Option, none, some, List, ltb, Bool-cases, length,
  list_eq, list_eq→≡, arith, [],
}
use tortor.Prelude.Result.{Result, ok, err}
use tortor.Torrent.{TorrentMeta}
use tortor.Bencode.{BencodeError, max_torrent_size}
use tortor.Bencode.Meta.{RawInfo, MetaError, build_meta}
use tortor.Bencode.Tiled.{IsWord, IsAccepted, build_meta-IsAccepted}
use tortor.Bencode.Parse.{
  in_parse, decoded_info, metadata_checked, check_bencode_depth, parse_torrent_metadata_bytes,
}

-- Metadata that was taken from peers for the torrent with this info hash.
pub record IsGenuine (hash_sha1 : List ℕ → List ℕ) (bytes expected : List ℕ) (m : TorrentMeta)
    : Type 0 where
  pub genuine : hash_sha1 bytes ≡ expected
  pub small : length bytes ≤ max_torrent_size
  pub shallow : check_bencode_depth bytes ≡ ok tt
  pub accepted : IsAccepted m

module _ (windows : Bool) (hash_sha1 : List ℕ → List ℕ) (decode : List ℕ → Option RawInfo)
    -- The decoder reads `length` as a `u64`.
    (is_word : (bytes : List ℕ) (info : RawInfo)
      → decode bytes ≡ some info
      → IsWord info.length) where
  in_parse-IsAccepted :
      (info : RawInfo) (hash : List ℕ) (r : Result MetaError TorrentMeta) (m : TorrentMeta)
      → build_meta windows [] info hash ≡ r
      → in_parse r ≡ ok m
      → IsWord info.length
      → IsAccepted m
  in_parse-IsAccepted info hash (err x) m h e w = absurd (ground (arith, e))
  in_parse-IsAccepted info hash (ok m') m h e w =
      build_meta-IsAccepted windows [] info hash m w (h ∙ (ground (arith, e)))

  metadata_checked-IsAccepted :
      (bytes hash : List ℕ) (raw : Option RawInfo) (depth : Result BencodeError Unit)
      (m : TorrentMeta)
      → decode bytes ≡ raw
      → metadata_checked windows hash_sha1 hash raw depth ≡ ok m
      → IsAccepted m × (depth ≡ ok tt)
  unfolding metadata_checked decoded_info
  metadata_checked-IsAccepted bytes hash raw (err x) m d e = absurd (ground (arith, e))
  metadata_checked-IsAccepted bytes hash none (ok tt) m d e = absurd (ground (arith, e))
  metadata_checked-IsAccepted bytes hash (some info) (ok tt) m d e = (
    in_parse-IsAccepted info hash (build_meta windows [] info hash) m refl e (is_word bytes info d),
    refl,
  )

  -- Metadata is accepted only if it is at most 16 MB, has the expected SHA-1, passes the
  -- depth check, and its fields make a torrent with data whose pieces tile it and with a safe
  -- name. Here the decoder reads `length` as a 64-bit number.
  pub parse_torrent_metadata_bytes-IsGenuine :
      (bytes expected : List ℕ) (m : TorrentMeta)
      → parse_torrent_metadata_bytes windows hash_sha1 decode bytes expected ≡ ok m
      → IsGenuine hash_sha1 bytes expected m
  unfolding parse_torrent_metadata_bytes
  parse_torrent_metadata_bytes-IsGenuine bytes expected m e =
      elim (Bool-cases (ltb max_torrent_size (length bytes))) [
        | inl large ↦ absurd (ground (arith, e, large))
        | inr fits ↦ elim (Bool-cases (list_eq (hash_sha1 bytes) expected)) [
          | inr other ↦ absurd (ground (arith, e, fits, other))
          | inl same ↦
              let found =
                metadata_checked-IsAccepted bytes (hash_sha1 bytes) (decode bytes)
                  (check_bencode_depth bytes) m refl (rw (fits, same) at e) in
              record {
                genuine = list_eq→≡ (hash_sha1 bytes) expected same;
                small = ground (arith, fits);
                shallow = found.1;
                accepted = found.0;
              }
        ]
      ]
