-- ===== src/Store/Ip.antt =====
-- internal/store/store.go: the pool of addresses 10.100.0.2 to 10.100.0.254.
pub mod Octets
pub mod Allocate
pub mod Pool
use lxc2docker.Prelude.{
  ℕ, zero, suc, ◌+◌, ◌≤◌, ◌<◌, ◌≡◌, refl, Bool, true, false, not, ◌&&◌, ◌||◌, List, [], ◌∷◌, ◌++◌,
  Option, none, some, ltb, leb, ◌==◌, if◌then◌else◌, any, is_empty,
}
use lxc2docker.Prelude.Int.{pos, negsuc}
use lxc2docker.Strings.{Str, codes, eq_str, split_byte, atoi, itoa}
use lxc2docker.Dict.{Dict, values}
use lxc2docker.Store.Records.{ContainerRecord}
use lxc2docker.Store.State.{State}

-- `net.ParseIP`, as far as it matters here: four numbers up to 255, with no leading zero. It takes
-- IPv6 texts too, but such a text has a colon before its first dot, so its first part is not "10".
pub is_decimal_byte : Str → Bool
is_decimal_byte p = elim (atoi p) [ some (pos n) ↦ leb n 255 && eq_str p (itoa n) | _ ↦ false ]

pub parse_ipv4 : List Str → Bool
unfolding is_decimal_byte
parse_ipv4 (a ∷ b ∷ c ∷ d ∷ []) =
    is_decimal_byte a && (is_decimal_byte b && (is_decimal_byte c && is_decimal_byte d))
parse_ipv4 _ = false

pub octet_of_parts : List Str → Option ℕ
octet_of_parts (a ∷ b ∷ c ∷ d ∷ []) =
    if not (eq_str a (codes "10")) || (not (eq_str b (codes "100")) || not (eq_str c (codes "0")))
    then none
    else elim (atoi d) [ some (pos n) ↦ if ltb n 2 || ltb 254 n then none else some n | _ ↦ none ]
octet_of_parts _ = none

unfoldable pub parse_managed_ip_octet : Str → Option ℕ
unfolding parse_ipv4 octet_of_parts split_byte atoi itoa eq_str
parse_managed_ip_octet ip =
    let parts = split_byte b'.' ip in if parse_ipv4 parts then octet_of_parts parts else none

-- `fmt.Sprintf("10.100.0.%d", octet)`
unfoldable pub managed_ip : ℕ → Str
unfolding itoa
managed_ip octet = codes "10.100.0." ++ itoa octet

-- The map `used`, as the list of its keys.
unfoldable pub used_ip_octets : List ContainerRecord → List ℕ
used_ip_octets [] = []
used_ip_octets (r ∷ rs) =
    let rest = used_ip_octets rs in
    elim (parse_managed_ip_octet r.ip_address) [ some octet ↦ octet ∷ rest | none ↦ rest ]

-- `used[octet]`, and the search of `appendFreeIPLocked`
unfoldable pub has_octet : ℕ → List ℕ → Bool
has_octet octet [] = false
has_octet octet (o ∷ os) = if o == octet then true else has_octet octet os

unfoldable pub append_free_ip : ℕ → List ℕ → List ℕ
unfolding has_octet
append_free_ip octet free =
    if ltb octet 2 || ltb 254 octet
    then free
    else if has_octet octet free
    then free
    else free ++ octet ∷ []

-- One round over the free list: `reuseOctet` (0: none yet) and `remaining`.
unfoldable pub scan_free : List ℕ → ℕ × List ℕ → ℕ → ℕ × List ℕ
unfolding has_octet
scan_free used (reuse, remaining) octet =
    if ltb octet 2 || (ltb 254 octet || has_octet octet used)
    then (reuse, remaining)
    else if reuse == 0
    then (octet, remaining)
    else (reuse, remaining ++ octet ∷ [])

unfoldable pub scan_free_list : List ℕ → ℕ × List ℕ → List ℕ → ℕ × List ℕ
unfolding scan_free
scan_free_list used acc [] = acc
scan_free_list used acc (o ∷ os) = scan_free_list used (scan_free used acc o) os

-- The loop `for s.data.NextIP <= 254`: the new counter, and the octet that was found. It has 255
-- rounds of fuel, and makes at most 255 - NextIP rounds.
unfoldable pub advance : ℕ → List ℕ → ℕ → ℕ × Option ℕ
unfolding has_octet
advance zero used next = (next, none)
advance (suc fuel) used next =
    let rest = advance fuel used (next + 1) in
    if ltb 254 next
    then (next, none)
    else if has_octet next used
    then rest
    else (next + 1, some next)

unfoldable pub from_counter : List ℕ → State → State × Option ℕ
from_counter used st =
    let (next, found) = advance 255 used st.next_ip in (record st { next_ip = next }, found)

-- `AllocateIP` without the save: the state that it leaves and the octet that it hands out.
unfoldable pub allocate_octet : State → State × Option ℕ
allocate_octet st =
    let used = used_ip_octets (values st.containers) in
    let (reuse, remaining) = scan_free_list used (0, []) st.free_ips in
    if is_empty st.free_ips
    then from_counter used st
    else if reuse == 0
    then from_counter used (record st { free_ips = remaining })
    else (record st { free_ips = remaining }, some reuse)
