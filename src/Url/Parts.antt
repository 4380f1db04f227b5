-- ===== src/Url/Parts.antt =====
-- src/utils/URL.cc: an address with a protocol, a host and a resource.
use mathlib.Core.Option
use native.Mathlib.Nat.{mod-eq_of_lt}
use rikitiki.Base.{
  suc, ◌+◌, ◌%◌, ◌^◌, ◌<◌, Bool, true, [], ◌∷◌, ◌++◌, none, some, Bytes, codes, length, drop, find,
  find_char, ◌==◌, ◌≡◌, ◌≢◌, refl, sym, ap, ◌∙◌, arith, All, ne→==, append_assoc, length-append,
  drop-length, if◌then◌else◌,
}
use rikitiki.Url.{new_url, find_slash, protocol_of, resource_of, or_end, starts_of}

abbrev pub address : (protocol host resource : Bytes) → Bytes
address protocol host resource = protocol ++ (codes "://" ++ (host ++ resource))

-- A resource is empty or begins with a slash.
abbrev pub begins_slash : Bytes → Bool
begins_slash [] = true
begins_slash (c ∷ cs) = c == b'/'

pub find-protocol :
    (p rest : Bytes)
    → All (λ c. c ≢ b':') p
    → find (codes "://") (p ++ (codes "://" ++ rest)) ≡ some (length p)
find-protocol [] rest h = refl
find-protocol (c ∷ p) rest (ne, h) =
    rw (ne→== 58 c (λ e. ne (sym e))) (ap (Option.map suc) (find-protocol p rest h))

pub find_char-host :
    (h r : Bytes)
    → All (λ c. c ≢ b'/') h
    → begins_slash r ≡ true
    → find_char b'/' (h ++ r) ≡ (if length r == 0 then none else some (length h))
find_char-host [] [] plain s = refl
find_char-host [] (c ∷ r) plain s = ground arith
find_char-host (c ∷ h) r (ne, plain) s = ground (arith, find_char-host h r plain s)

pub drop-protocol : (p rest : Bytes) → drop (length p + 3) (p ++ (codes "://" ++ rest)) ≡ rest
drop-protocol p rest =
    ap (λ n. drop n (p ++ (codes "://" ++ rest))) (sym (length-append p (codes "://")))
    ∙ ap (drop (length (p ++ codes "://"))) (sym (append_assoc p (codes "://") rest))
    ∙ drop-length (p ++ codes "://") rest

slash_behind :
    (p h r : Bytes)
    → length p + 3 < 2 ^ 32
    → find_slash ((length p + 3) % 2 ^ 32) (address p h r)
      ≡ Option.map (λ i. length p + 3 + i) (find_char b'/' (h ++ r))
slash_behind p h r small =
    ap (λ n. find_slash n (address p h r)) (mod-eq_of_lt small)
    ∙ ap (λ t. Option.map (λ i. length p + 3 + i) (find_char b'/' t)) (drop-protocol p (h ++ r))

resource_of-address :
    (p h r : Bytes)
    → All (λ c. c ≢ b'/') h
    → begins_slash r ≡ true
    → length p + 3 < 2 ^ 32
    → resource_of (length p + 3) (address p h r) ≡ length p + 3 + length h
resource_of-address p h [] host slash small =
    let uri = address p h [] in
    ap (or_end uri) (
      slash_behind p h [] small
      ∙ ap (Option.map (λ i. length p + 3 + i)) (find_char-host h [] host slash))
    ∙ omega (arith, length-append p (codes "://" ++ (h ++ [])), length-append h [])
resource_of-address p h (c ∷ r) host slash small =
    let uri = address p h (c ∷ r) in
    ap (or_end uri) (
      slash_behind p h (c ∷ r) small
      ∙ ap (Option.map (λ i. length p + 3 + i)) (
          find_char-host h (c ∷ r) host slash
          ∙ ap (λ b. if b then none else some (length h)) (ne→== (length (c ∷ r)) 0 (omega arith))))

-- The parts of an address are found: the protocol at its start, the host behind "://", and the
-- resource behind the host, at the end where there is none. The protocol holds no colon, the host no
-- slash, the resource is empty or begins with one, and the host's offset fits an unsigned int.
pub new_url-address :
    (protocol host resource : Bytes)
    → All (λ c. c ≢ b':') protocol
    → All (λ c. c ≢ b'/') host
    → begins_slash resource ≡ true
    → length protocol + 3 < 2 ^ 32
    → new_url (address protocol host resource) ≡ record {
      uri = address protocol host resource;
      protocol_start = 0;
      host_start = length protocol + 3;
      resource_start = length protocol + 3 + length host;
    }
unfolding new_url
new_url-address p h r plain host slash small =
    let found : protocol_of (address p h r) ≡ (0, length p + 3) =
      ap (starts_of (address p h r)) (find-protocol p (h ++ r) plain) in
    ap
      (λ x. record {
        uri = address p h r;
        protocol_start = x.0;
        host_start = x.1;
        resource_start = resource_of x.1 (address p h r);
      })
      found
    ∙ ap
        (λ n. record {
          uri = address p h r;
          protocol_start = 0;
          host_start = length p + 3;
          resource_start = n;
        })
        (resource_of-address p h r host slash small)
