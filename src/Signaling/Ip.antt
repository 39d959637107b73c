-- ===== src/Signaling/Ip.antt =====
-- net.ParseIP of Go's standard library, as internal/signaling/candidate.go uses it: whether a text
-- is an IPv4 address in dotted decimal, or an IPv6 address without a zone.
use gocord.Base.{
  ℕ, zero, suc, ◌+◌, ◌-◌, ◌*◌, Bool, true, false, not, ◌&&◌, ◌||◌, [], ◌∷◌, length, leb, ltb, ◌==◌,
  if◌then◌else◌,
}
use gocord.Base.Assoc.{Text}

abbrev pub is_digit : ℕ → Bool
is_digit c = leb b'0' c && leb c b'9'

abbrev pub is_hex : ℕ → Bool
is_hex c = is_digit c || leb b'a' c && leb c b'f' || leb b'A' c && leb c b'F'

-- The loop of parseIPv4Fields: the value and the number of digits of the current field, and the
-- fields before it. A field is at most 255 and has no leading zero; there are four.
unfoldable pub ipv4_from : ℕ → ℕ → ℕ → Text → Bool
ipv4_from value digits fields [] = ltb 0 digits && fields == 3
ipv4_from value digits fields (c ∷ s) =
    let value' = value * 10 + (c - b'0') in
    let digit = is_digit c && not (digits == 1 && value == 0) && leb value' 255 in
    let dot = c == b'.' && ltb 0 digits && ltb fields 3 in
    (digit || dot)
    && ipv4_from (if digit then value' else 0) (if digit then digits + 1 else 0)
        (if digit then fields else fields + 1) s

unfoldable pub is_ipv4 : Text → Bool
unfolding ipv4_from
is_ipv4 s = ipv4_from 0 0 0 s

-- The hexadecimal digits at the front, and the rest.
unfoldable pub span_hex : Text → Text × Text
span_hex [] = ([], [])
span_hex (c ∷ s) =
    let (front, rest) = span_hex s in if is_hex c then (c ∷ front, rest) else ([], c ∷ s)

-- The end of parseIPv6, after that many of the eight groups: `::` stands for at least one.
abbrev pub ipv6_end : ℕ → Bool → Bool
ipv6_end groups ellipsis = if ltb groups 8 then ellipsis else not ellipsis

-- The loop of parseIPv6; the first number is the rounds that are left. A text left over after eight
-- groups is an error.
unfoldable pub ipv6_from : ℕ → ℕ → Bool → Text → Bool
unfolding is_ipv4 span_hex
ipv6_from zero groups ellipsis s = false
ipv6_from (suc rounds) groups ellipsis s =
    let (digits, rest) = span_hex s in
    ltb 0 (length digits) && leb (length digits) 4 && (elim rest [
      | [] ↦ ipv6_end (groups + 1) ellipsis
      | c ∷ more ↦ elim (c == b'.') [
        | true ↦
            (ellipsis || groups == 6)
            && leb (groups + 2) 8
            && is_ipv4 s
            && ipv6_end (groups + 2) ellipsis
        | false ↦ c == b':' && (elim more [
          | [] ↦ false
          | d ∷ after ↦ elim (d == b':') [
            | true ↦ not ellipsis && (elim after [
              | [] ↦ ipv6_end (groups + 1) true
              | x ∷ rest' ↦ ipv6_from rounds (groups + 1) true (x ∷ rest')
            ])
            | false ↦ ipv6_from rounds (groups + 1) ellipsis (d ∷ after)
          ]
        ])
      ]
    ])

unfoldable pub is_ipv6 : Text → Bool
unfolding ipv6_from
is_ipv6 [] = ipv6_from 8 0 false []
is_ipv6 (c ∷ []) = ipv6_from 8 0 false (c ∷ [])
is_ipv6 (c ∷ d ∷ []) = if c == b':' && d == b':' then true else ipv6_from 8 0 false (c ∷ d ∷ [])
is_ipv6 (c ∷ d ∷ e ∷ s) =
    let tail = ipv6_from 8 0 true (e ∷ s) in
    let whole = ipv6_from 8 0 false (c ∷ d ∷ e ∷ s) in
    if c == b':' && d == b':' then tail else whole

-- ParseAddr: the first of `.`, `:` and `%` chooses the form; a zone is never accepted.
unfoldable pub parse_form : Text → Text → Bool
unfolding is_ipv4 is_ipv6
parse_form whole [] = false
parse_form whole (c ∷ s) =
    let rest = parse_form whole s in
    if c == b'.'
    then is_ipv4 whole
    else if c == b':'
    then is_ipv6 whole
    else if c == b'%'
    then false
    else rest

-- `net.ParseIP(s) != nil`. In is_ipv6 a `%` is no digit and no colon, so a zone is refused there.
unfoldable pub parse_ip : Text → Bool
unfolding parse_form
parse_ip s = parse_form s s
