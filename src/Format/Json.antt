-- ===== src/Format/Json.antt =====
-- A reader for the inside of a JSON string, by the grammar of RFC 8259, against `json_escape` of
-- programs/hardig/src/instructions/mod.rs.
use mathlib.Core.List.{append_assoc}
use native.Mathlib.Decide.{dec_lt}
use hardig.Base.{
  ℕ, zero, suc, ◌+◌, ◌-◌, ◌*◌, ◌≡◌, refl, ap, arith, Bool, true, false, ◌&&◌, ◌||◌, Option, none,
  some, [], ◌∷◌, ◌++◌, ltb, leb, ◌==◌, if◌then◌else◌, sym, ◌∙◌, ◌≤◌, ==→eq,
}
use hardig.Runtime.{Text}
use hardig.Decimal.{all_below, all_below_sound}
use hardig.Format.{json_escape, escape_char}

-- Between characters, behind a backslash, or with a number of hexadecimal digits to come.
pub data Mode : Type 0 where
  plain escape : Mode
  hex : ℕ → ℕ → Mode

hex_value : ℕ → Option ℕ
hex_value c =
    if leb b'0' c && leb c b'9'
    then some (c - b'0')
    else if leb b'a' c && leb c b'f'
    then some (c - b'a' + 10)
    else if leb b'A' c && leb c b'F'
    then some (c - b'A' + 10)
    else none

-- A character that is written out: neither the end of the string nor a control character.
read_plain : ℕ → Option (Mode × Text)
read_plain c =
    if c == b'"' || ltb c 0x20
    then none
    else if c == b'\\'
    then some (escape, [])
    else some (plain, c ∷ [])

read_escape : ℕ → Option (Mode × Text)
read_escape c =
    if c == b'"' || (c == b'\\' || c == b'/')
    then some (plain, c ∷ [])
    else if c == b'n'
    then some (plain, 0x0a ∷ [])
    else if c == b'r'
    then some (plain, 0x0d ∷ [])
    else if c == b't'
    then some (plain, 0x09 ∷ [])
    else if c == b'b'
    then some (plain, 0x08 ∷ [])
    else if c == b'f'
    then some (plain, 0x0c ∷ [])
    else if c == b'u'
    then some (hex 4 0, [])
    else none

-- The last digit gives the character; surrogates are not read.
read_digit : ℕ → ℕ → Option ℕ → Option (Mode × Text)
read_digit n acc none = none
read_digit zero acc (some d) = none
read_digit (suc zero) acc (some d) =
    let c = acc * 16 + d in if leb 0xd800 c && ltb c 0xe000 then none else some (plain, c ∷ [])
read_digit (suc (suc n)) acc (some d) = some (hex (suc n) (acc * 16 + d), [])

read_char : Mode → ℕ → Option (Mode × Text)
unfolding read_plain read_escape read_digit hex_value
read_char plain c = read_plain c
read_char escape c = read_escape c
read_char (hex n acc) c = read_digit n acc (hex_value c)

prepend : Text → Option Text → Option Text
prepend out none = none
prepend out (some s) = some (out ++ s)

-- The string may end only between two characters.
finish : Mode → Option Text
finish plain = some []
finish escape = none
finish (hex n acc) = none

continue : Option (Mode × Text) → (Mode → Option Text) → Option Text
continue none next = none
continue (some (m, out)) next = prepend out (next m)

unfoldable pub json_read : Mode → Text → Option Text
unfolding read_char prepend finish continue
json_read m [] = finish m
json_read m (c ∷ s) = continue (read_char m c) (λ m'. json_read m' s)

-- A part of a string, which may end between any two characters.
with_out : Text → Option (Mode × Text) → Option (Mode × Text)
with_out out none = none
with_out out (some (m, s)) = some (m, out ++ s)

continue_part : Option (Mode × Text) → (Mode → Option (Mode × Text)) → Option (Mode × Text)
continue_part none next = none
continue_part (some (m, out)) next = with_out out (next m)

read_part : Mode → Text → Option (Mode × Text)
unfolding read_char with_out continue_part
read_part m [] = some (m, [])
read_part m (c ∷ s) = continue_part (read_char m c) (λ m'. read_part m' s)

resume : Option (Mode × Text) → Text → Option Text
unfolding json_read
resume none s = none
resume (some (m, out)) s = prepend out (json_read m s)

prepend_append : (a b : Text) (o : Option Text) → prepend a (prepend b o) ≡ prepend (a ++ b) o
unfolding prepend
prepend_append a b none = refl
prepend_append a b (some s) = ap some (sym (append_assoc a b s))

prepend_nil : (o : Option Text) → prepend [] o ≡ o
unfolding prepend
prepend_nil none = refl
prepend_nil (some s) = refl

resume-with_out :
    (out : Text) (r : Option (Mode × Text)) (t : Text)
    → prepend out (resume r t) ≡ resume (with_out out r) t
unfolding resume with_out prepend
resume-with_out out none t = refl
resume-with_out out (some (m, s)) t = prepend_append out s (json_read m t)

resume-continue_part :
    (o : Option (Mode × Text)) (s t : Text)
    → ((m : Mode) → json_read m (s ++ t) ≡ resume (read_part m s) t)
    → continue o (λ m. json_read m (s ++ t)) ≡ resume (continue_part o (λ m. read_part m s)) t
unfolding continue continue_part resume
resume-continue_part none s t rest = refl
resume-continue_part (some (m, out)) s t rest =
    ap (prepend out) (rest m) ∙ resume-with_out out (read_part m s) t

-- A string is read part by part.
json_read-append : (m : Mode) (s t : Text) → json_read m (s ++ t) ≡ resume (read_part m s) t
unfolding json_read read_part resume
json_read-append m [] t = sym (prepend_nil (json_read m t))
json_read-append m (c ∷ s) t =
    resume-continue_part (read_char m c) s t (λ m'. json_read-append m' s t)

reads_back : ℕ → Option (Mode × Text) → Bool
reads_back c (some (plain, d ∷ [])) = d == c
reads_back c _ = false

reads_back_sound :
    (c : ℕ) (o : Option (Mode × Text)) → reads_back c o ≡ true → o ≡ some (plain, c ∷ [])
unfolding reads_back
reads_back_sound c none h = cc
reads_back_sound c (some (plain, [])) h = cc
reads_back_sound c (some (plain, d ∷ [])) h = ap (λ x. some (plain, x ∷ [])) (==→eq d c h)
reads_back_sound c (some (plain, d ∷ e ∷ s)) h = cc
reads_back_sound c (some (escape, s)) h = cc
reads_back_sound c (some (hex n a, s)) h = cc

small_table : all_below 256 (λ c. reads_back c (read_part plain (escape_char c))) ≡ true
unfolding all_below reads_back read_part read_char escape_char
small_table = refl

large_escape : (c : ℕ) → 256 ≤ c → escape_char c ≡ c ∷ []
unfolding escape_char
large_escape c h = ground arith

large_plain : (c : ℕ) → 256 ≤ c → read_part plain (c ∷ []) ≡ some (plain, c ∷ [])
unfolding read_part read_char read_plain
large_plain c h = ground arith

-- One character is read back: by the table below 256, and as itself above.
read_part-escape_char : (c : ℕ) → read_part plain (escape_char c) ≡ some (plain, c ∷ [])
read_part-escape_char c = elim (dec_lt c 256) [
  | yes h ↦ reads_back_sound c _ (all_below_sound 256 _ c small_table h)
  | no h ↦ ap (read_part plain) (large_escape c (omega arith)) ∙ large_plain c (omega arith)
]

-- An escaped text is the inside of a JSON string, and reads back as the text.
pub json_read-json_escape : (s : Text) → json_read plain (json_escape s) ≡ some s
unfolding json_escape json_read resume
json_read-json_escape [] = refl
json_read-json_escape (c ∷ s) =
    json_read-append plain (escape_char c) (json_escape s)
    ∙ ap (λ r. resume r (json_escape s)) (read_part-escape_char c)
    ∙ ap (prepend (c ∷ [])) (json_read-json_escape s)
