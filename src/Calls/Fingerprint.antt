-- ===== src/Calls/Fingerprint.antt =====
-- apps/web/src/features/calls/peer.ts: `extractDtlsFingerprint`, and what signaling.ts does with the
-- spaces of a fingerprint.
use konvo_pro.Shared.{
  Bool, true, false, ◌&&◌, ◌||◌, ◌==◌, leb, not, Option, none, some, String, if◌then◌else◌,
}
use Prim.Native.Char.{Char, code}
use Prim.Native.String.{[] as no_chars, ◌∷◌ as ◌then_chars◌, ◌++◌ as ◌append◌}

-- `\s`, which is also what `trim` strips.
abbrev pub is_space : Char → Bool
is_space c =
    let n = code c in
    (leb 9 n && leb n 13)
    || n == 32
    || n == 160
    || n == 5760
    || (leb 8192 n && leb n 8202)
    || n == 8232
    || n == 8233
    || n == 8239
    || n == 8287
    || n == 12288
    || n == 65279

-- What `^` of a regular expression with the flag `m` takes for the end of the line before.
abbrev pub is_line_end : Char → Bool
is_line_end c = let n = code c in n == 10 || n == 13 || n == 8232 || n == 8233

-- `[0-9A-Fa-f:]`
abbrev pub is_hex : Char → Bool
is_hex c =
    let n = code c in (leb 48 n && leb n 58) || (leb 65 n && leb n 70) || (leb 97 n && leb n 102)

-- The longest run of such characters at the start, and what follows it.
unfoldable pub run_of : (Char → Bool) → String → String
run_of p no_chars = no_chars
run_of p (c then_chars s) = let rest = run_of p s in if p c then c then_chars rest else no_chars

unfoldable pub after_run : (Char → Bool) → String → String
after_run p no_chars = no_chars
after_run p (c then_chars s) = let rest = after_run p s in if p c then rest else c then_chars s

unfoldable pub strip_prefix : String → String → Option String
strip_prefix no_chars s = some s
strip_prefix (d then_chars p) no_chars = none
strip_prefix (d then_chars p) (c then_chars s) =
    let rest = strip_prefix p s in if code c == code d then rest else none

abbrev pub is_empty : String → Bool
is_empty no_chars = true
is_empty (c then_chars s) = false

abbrev pub is_not_space : Char → Bool
is_not_space c = not (is_space c)

-- `(\S+)\s+([0-9A-Fa-f:]+)` at the start of a text: no run of the three can give back a character
-- that the next one takes.
unfoldable pub match_value : String → Option String
match_value s =
    let algo = run_of is_not_space s in
    let spaced = after_run is_not_space s in
    let hex = run_of is_hex (after_run is_space spaced) in
    if is_empty algo || is_empty (run_of is_space spaced) || is_empty hex
    then none
    else some (algo append (" " append hex))

unfoldable pub match_line : String → Option String
match_line s = elim (strip_prefix "a=fingerprint:" s) [
  | none ↦ none
  | some value ↦ match_value value
]

-- The first match from a place on, which is at the start of a line or not.
unfoldable pub first_match : Bool → String → Option String
first_match starts no_chars = none
first_match starts (c then_chars s) =
    let rest = first_match (is_line_end c) s in
    if starts then elim (match_line (c then_chars s)) [ none ↦ rest | some fp ↦ some fp ] else rest

unfoldable pub extract_dtls_fingerprint : String → Option String
extract_dtls_fingerprint sdp = first_match true sdp

unfoldable pub trim_end : String → String
trim_end no_chars = no_chars
trim_end (c then_chars s) =
    let rest = trim_end s in if is_space c && is_empty rest then no_chars else c then_chars rest

-- `String.prototype.trim`
unfoldable pub trim : String → String
trim s = trim_end (after_run is_space s)

-- `replace(/\s+/g, ' ')`, after a space of the same run or not.
unfoldable pub collapse_from : Bool → String → String
collapse_from spaced no_chars = no_chars
collapse_from spaced (c then_chars s) =
    let rest = collapse_from (is_space c) s in
    if is_space c then (if spaced then rest else " " append rest) else c then_chars rest

unfoldable pub collapse : String → String
collapse s = collapse_from false s
