-- ===== src/Tests/Fetcher.antt =====
-- The headers of a node at concrete inputs.
use Prim.Native.Nat.{min}
use doge_lucky_mining.Common.{
  ℕ, ◌+◌, ◌*◌, ◌≤◌, ◌<◌, ◌≡◌, refl, arith, Option, none, some, [], ◌==◌, if◌then◌else◌,
}
use doge_lucky_mining.Hex.{codes, encode}
use doge_lucky_mining.HashCompare.{reverse_bytes_in_place}
use doge_lucky_mining.Block.{BlockHeader}
use doge_lucky_mining.Rpc.{Float64, Fields, no_fields, field, number, string}
use doge_lucky_mining.HeaderFetcher.{HeaderFetcher, get_header, fetch_rounds}
use doge_lucky_mining.HeaderFetcher.Progress.{fetch_rounds_complete}
use doge_lucky_mining.Tests.Data.{first_header}

abbrev whole : Float64
whole = record { Value = ℕ; to_int64 = λ n. n; to_int32 = λ n. n; to_uint32 = λ n. n }

abbrev an_object : Fields whole
an_object = field (codes "version") (number 1) (
    field (codes "previousblockhash")
      (string (encode (reverse_bytes_in_place first_header.prev_block)))
      (field (codes "merkleroot")
        (string (encode (reverse_bytes_in_place first_header.merkle_root)))
        (field (codes "time") (number 1386325600) (
          field (codes "bits") (string (codes "1e0ffff0"))
            (field (codes "nonce") (number 42) no_fields)))))

abbrev header_of : ℕ → BlockHeader
header_of k = record first_header { height = k }

abbrev every : ℕ → Option BlockHeader
every k = some (header_of k)

abbrev at_five : HeaderFetcher
at_five = record { headers = []; last_height = some 5 }

fetch_rounds_complete_example :
    ((fetch_rounds every 50 2 at_five).last_height ≡ some (min 50 (5 + 21 * 2)))
    × ((k : ℕ)
        → 5 < k
        → k ≤ min 50 (5 + 21 * 2)
        → get_header k (fetch_rounds every 50 2 at_five).headers ≡ every k)
fetch_rounds_complete_example =
    fetch_rounds_complete every 50 2 5 at_five refl (omega arith) (λ k lo hi. (header_of k, refl))

abbrev but_seven : ℕ → Option BlockHeader
but_seven k = if k == 7 then none else every k
