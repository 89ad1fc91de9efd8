-- ===== src/Engine/Content.antt =====
-- engine.go: comparing two entries, by content and by the rule that picks the winner of a conflict.
use cross_sync.Table.{keys}
use cross_sync.Base.{
  ℕ, list_eq, nat_eq, Bool, List, [], false, if◌then◌else◌, length, ltb, not, suc, true, zero, ◌%◌,
  ◌*◌, ◌++◌, ◌+◌, ◌-◌, ◌/◌, ◌==◌, ◌^◌, ◌||◌, ◌∷◌,
}
use cross_sync.Hash.{Bytes}
use cross_sync.Text.{lex_lt}
use cross_sync.Version.{Vector, get}
use cross_sync.Index.Files.{FileInfo, kind_beq}

-- `sameContent`
unfoldable pub same_content : FileInfo → FileInfo → Bool
same_content a b =
    if not (kind_beq a.type b.type) || not (a.size == b.size) then false else a.blocks == b.blocks

-- `identicalContent`
unfoldable pub identical_content : FileInfo → FileInfo → Bool
unfolding same_content
identical_content a b =
    if not (same_content a b) then false else if a.size == 0 then true else ltb 0 (length a.blocks)

-- `a > b` for int64 values in two's complement.
abbrev pub signed_gt : ℕ → ℕ → Bool
signed_gt a b = ltb ((b + 2 ^ 63) % 2 ^ 64) ((a + 2 ^ 63) % 2 ^ 64)

-- A hexadecimal digit in ASCII, and `strconv.FormatUint(n, 16)`, on fuel for its 16 digits.
unfoldable pub hex_digit : ℕ → ℕ
hex_digit d = if ltb d 10 then b'0' + d else b'a' + (d - 10)

unfoldable pub format_hex : ℕ → ℕ → Bytes
unfolding hex_digit
format_hex zero n = []
format_hex (suc fuel) n =
    let higher = format_hex fuel (n / 16) in
    if ltb n 16 then hex_digit n ∷ [] else higher ++ (hex_digit (n % 16) ∷ [])

-- `sort.Slice` of the keys in increasing order.
unfoldable pub place_key : ℕ → List ℕ → List ℕ
place_key k [] = k ∷ []
place_key k (j ∷ js) = if ltb j k then j ∷ place_key k js else k ∷ j ∷ js

unfoldable pub sort_keys : List ℕ → List ℕ
unfolding place_key
sort_keys [] = []
sort_keys (k ∷ ks) = place_key k (sort_keys ks)

unfoldable pub canonical_loop : Vector → List ℕ → Bytes
unfolding format_hex
canonical_loop v [] = []
canonical_loop v (k ∷ ks) =
    format_hex 16 k ++ (b':' ∷ (format_hex 16 (get v k) ++ (b'|' ∷ canonical_loop v ks)))

-- `canonicalVersion`
unfoldable pub canonical_version : Vector → Bytes
canonical_version v = canonical_loop v (sort_keys (keys v))

-- `totalGreater`
unfoldable pub total_greater : FileInfo → FileInfo → Bool
total_greater a b = lex_lt (canonical_version b.version) (canonical_version a.version)

-- The modification time in nanoseconds, as the int64 arithmetic leaves it.
abbrev pub stamp : FileInfo → ℕ
stamp fi = (fi.modified_s * 1_000_000_000 + fi.modified_ns) % 2 ^ 64

-- `newerOrGreater`
unfoldable pub newer_or_greater : FileInfo → FileInfo → Bool
newer_or_greater a b =
    if not (stamp a == stamp b) then signed_gt (stamp a) (stamp b) else total_greater a b
