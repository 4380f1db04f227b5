-- ===== src/Url.antt =====
-- src/utils/URL.cc, include/rikitiki/utils/URL.h: URL_, which finds the parts of an address. A pointer into
-- the address is its offset; its end is the address's length.
pub mod Parts
use mathlib.Core.Option
use rikitiki.Base.{
  ℕ, ◌+◌, ◌%◌, ◌^◌, Option, none, some, Bytes, codes, length, drop, find, find_char,
}

pub record Url : Type 0 where
  pub uri : Bytes
  pub protocol_start : ℕ
  pub host_start : ℕ
  pub resource_start : ℕ

-- `uri.find("/", from)`
abbrev pub find_slash : ℕ → Bytes → Option ℕ
find_slash from s = Option.map (λ i. from + i) (find_char b'/' (drop from s))

-- Where the protocol and the host begin, given where "://" was found.
abbrev pub starts_of : Bytes → Option ℕ → ℕ × ℕ
starts_of uri none = (length uri, 0)
starts_of uri (some i) = (0, i + 3)

abbrev pub or_end : Bytes → Option ℕ → ℕ
or_end uri none = length uri
or_end uri (some i) = i

abbrev pub protocol_of : Bytes → ℕ × ℕ
protocol_of uri = starts_of uri (find (codes "://") uri)

abbrev pub resource_of : ℕ → Bytes → ℕ
resource_of host uri = or_end uri (find_slash (host % 2 ^ 32) uri)

-- URL_::URL_. The offset of the host is cast to unsigned for the second search.
unfoldable pub new_url : Bytes → Url
new_url uri =
    let (protocol, host) = protocol_of uri in
    record {
      uri = uri;
      protocol_start = protocol;
      host_start = host;
      resource_start = resource_of host uri;
    }
