-- ===== src/Agent/Json/Records.antt =====
-- An object with plain texts and flags is parsed back from its printed form.
use localscale.Prelude.{
  ℕ, ◌≤◌, ◌-◌, ◌≡◌, ◌≢◌, refl, sym, ap, ◌∙◌, Bool, true, false, ◌||◌, ◌&&◌, all-All, not, some,
  List, [], ◌∷◌, ◌++◌, append_assoc, arith, Bytes, codes, bytes_eq, bytes_eq_self, all, All,
  All-append, length, length-append, drop-append, take-append, ltb, le→ltb, strip_prefix,
  strip_suffix, ◌==◌,
}
use localscale.Prelude.Table.{Table, insert}
use localscale.Codec.Fields.{split_once-append, split-join, join, Lacks}
use localscale.Codec.Trim.{trim, trim_between, trim_visible, IsVisible}
use localscale.Protocol.Syntax.{is_empty}
use localscale.Agent.Json.{
  escape, escaped, json_string, bool_text, unquoted, or_literal, is_refused, parse_item,
  parse_items, parse_json_fields,
}

-- A byte that is printed as it is, and is no comma.
abbrev pub IsPlain : ℕ → Type 0
IsPlain c =
    (0x20 ≤ c) × (c ≢ b'"') × (c ≢ b'\\') × (c ≢ b'<') × (c ≢ b'>') × (c ≢ b'&') × (c ≢ b',')

escape-plain : (c : ℕ) → IsPlain c → escape c ≡ c ∷ []
unfolding escape
escape-plain c h = ground arith

escaped-plain : (v : Bytes) → All IsPlain v → escaped v ≡ v
unfolding escaped
escaped-plain [] h = refl
escaped-plain (c ∷ v) h = rw (escape-plain c h.0, escaped-plain v h.1)

plain-accepted : (v : Bytes) → All IsPlain v → all (λ c. not (is_refused c)) v ≡ true
plain-accepted [] h = refl
plain-accepted (c ∷ v) h = ground (arith, plain-accepted v h.1)

strip_suffix-append : (s p : Bytes) → strip_suffix p (s ++ p) ≡ some s
unfolding strip_suffix
strip_suffix-append s p =
    let cut : length (s ++ p) - length p ≡ length s = omega (arith, length-append s p) in
    rw (
      le→ltb (length (s ++ p)) (length p) (omega (arith, length-append s p)),
      cut,
      drop-append s p,
      bytes_eq_self p,
      take-append s p,
    )

quoted-back : (v : Bytes) → unquoted (b'"' ∷ (v ++ b'"' ∷ [])) ≡ some v
unfolding strip_prefix
quoted-back v = strip_suffix-append v (codes "\"")

-- The value of a field.
pub data Value : Type 0 where
  text : Bytes → Value
  flag : Bool → Value

abbrev pub show : Value → Bytes
show (text v) = json_string v
show (flag b) = bool_text b

abbrev pub content : Value → Bytes
content (text v) = v
content (flag b) = bool_text b

abbrev pub Field : Type 0
Field = Bytes × Value

abbrev pub item : Field → Bytes
item (key, value) = b'"' ∷ (key ++ b'"' ∷ b':' ∷ show value)

abbrev pub IsKeyByte : ℕ → Type 0
IsKeyByte c = IsPlain c × (c ≢ b':')

abbrev pub IsPlainValue : Value → Type 0
IsPlainValue (text v) = All IsPlain v
IsPlainValue (flag b) = Unit

abbrev pub IsPlainField : Field → Type 0
IsPlainField (key, value) = (key ≢ []) × All IsKeyByte key × IsPlainValue value

read_value :
    (value : Value)
    → IsPlainValue value
    → (or_literal (unquoted (trim (show value))) (trim (show value)) ≡ some (content value))
      × (all (λ c. not (is_refused c)) (content value) ≡ true)
unfolding json_string bytes_eq strip_prefix
read_value (text v) h =
    let ends = trim_between b'"' b'"' v (omega arith) (omega arith) in
    (rw (escaped-plain v h, ends, strip_suffix-append v (codes "\"")), plain-accepted v h)
read_value (flag true) h = (rw (trim_visible (codes "true") (omega arith)), refl)
read_value (flag false) h = (rw (trim_visible (codes "false") (omega arith)), refl)

key-Lacks : (key : Bytes) → All IsKeyByte key → Lacks b':' key
key-Lacks [] h = tt
key-Lacks (c ∷ key) h = (h.0.1, key-Lacks key h.1)

not_empty : (key : Bytes) → key ≢ [] → is_empty key ≡ false
not_empty [] h = absurd (h refl)
not_empty (c ∷ key) h = refl

parse_item-item : (f : Field) → IsPlainField f → parse_item (item f) ≡ some (f.0, content f.1)
unfolding parse_item
parse_item-item (key, value) h =
    let name = b'"' ∷ (key ++ b'"' ∷ []) in
    let whole : item (key, value) ≡ name ++ b':' ∷ show value =
      ap (λ s. b'"' ∷ s) (sym (append_assoc key (b'"' ∷ []) (b':' ∷ show value))) in
    let lacks : Lacks b':' name = (
      omega arith,
      All-append (λ c. c ≢ b':') key (b'"' ∷ []) (key-Lacks key h.1) (omega arith, tt),
    ) in
    let (read, accepted) = read_value value h.2 in
    rw (
      whole,
      split_once-append b':' name (show value) lacks,
      trim_between b'"' b'"' key (omega arith) (omega arith),
      quoted-back key,
      read,
      not_empty key h.0,
      accepted,
    )

abbrev pub items : List Field → List Bytes
items [] = []
items (f ∷ fs) = item f ∷ items fs

-- The fields in a map, later ones over earlier ones.
abbrev pub insert_all : List Field → Table Bytes → Table Bytes
insert_all [] m = m
insert_all (f ∷ fs) m = insert_all fs (insert f.0 (content f.1) m)

parse_items-items :
    (fs : List Field) (m : Table Bytes)
    → All IsPlainField fs
    → parse_items (items fs) m ≡ some (insert_all fs m)
unfolding parse_items
parse_items-items [] m h = refl
parse_items-items (f ∷ fs) m h =
    rw (parse_item-item f h.0) (parse_items-items fs (insert f.0 (content f.1) m) h.1)

plain-Lacks : (v : Bytes) → All IsPlain v → Lacks b',' v
plain-Lacks [] h = tt
plain-Lacks (c ∷ v) h = (omega arith, plain-Lacks v h.1)

keys-Lacks : (v : Bytes) → All IsKeyByte v → Lacks b',' v
keys-Lacks [] h = tt
keys-Lacks (c ∷ v) h = (omega arith, keys-Lacks v h.1)

show-Lacks : (value : Value) → IsPlainValue value → Lacks b',' (show value)
unfolding json_string
show-Lacks (text v) h =
    rw (escaped-plain v h)
      (omega arith, All-append (λ c. c ≢ b',') v (b'"' ∷ []) (plain-Lacks v h) (omega arith))
show-Lacks (flag true) h = omega arith
show-Lacks (flag false) h = omega arith

items-Lacks : (fs : List Field) → All IsPlainField fs → All (Lacks b',') (items fs)
items-Lacks [] h = tt
items-Lacks ((key, value) ∷ fs) h = (
  (
    omega arith,
    All-append (λ c. c ≢ b',') key _ (keys-Lacks key h.0.1)
        (omega arith, (omega arith, show-Lacks value h.0.2)),
  ),
  items-Lacks fs h.1,
)

-- A text between a quotation mark and a visible character.
record Ends (s : Bytes) : Type 0 where
  middle : Bytes
  last : ℕ
  shape : s ≡ b'"' ∷ (middle ++ last ∷ [])
  visible : IsVisible last

show-Ends : (value : Value) → (m : Bytes) × (d : ℕ) × (show value ≡ m ++ d ∷ []) × IsVisible d
unfolding json_string
show-Ends (text v) = (b'"' ∷ escaped v, b'"', refl, omega arith)
show-Ends (flag true) = (codes "tru", b'e', refl, omega arith)
show-Ends (flag false) = (codes "fals", b'e', refl, omega arith)

item-Ends : (f : Field) → Ends (item f)
item-Ends (key, value) =
    let (m, d, shape, visible) = show-Ends value in
    record {
      middle = key ++ b'"' ∷ b':' ∷ m;
      last = d;
      shape =
          ap (λ (s : Bytes). b'"' ∷ (key ++ b'"' ∷ b':' ∷ s)) shape
          ∙ ap (λ (s : Bytes). b'"' ∷ s) (sym (append_assoc key (b'"' ∷ b':' ∷ m) (d ∷ [])));
      visible = visible;
    }

join-Ends : (f : Field) (fs : List Field) → Ends (join b',' (items (f ∷ fs)))
join-Ends f [] = item-Ends f
join-Ends f (g ∷ fs) =
    let front = item-Ends f in
    let back = join-Ends g fs in
    record {
      middle = front.middle ++ front.last ∷ b',' ∷ b'"' ∷ back.middle;
      last = back.last;
      shape =
          ap (λ (s : Bytes). s ++ b',' ∷ join b',' (items (g ∷ fs))) front.shape
          ∙ ap (λ (s : Bytes). (b'"' ∷ (front.middle ++ front.last ∷ [])) ++ b',' ∷ s) back.shape
          ∙ ap (λ (s : Bytes). b'"' ∷ s)
              (append_assoc front.middle (front.last ∷ [])
                  (b',' ∷ b'"' ∷ (back.middle ++ back.last ∷ []))
                ∙ sym (
                    append_assoc front.middle (front.last ∷ b',' ∷ b'"' ∷ back.middle)
                      (back.last ∷ [])));
      visible = back.visible;
    }

Ends-trim : (s : Bytes) → Ends s → (trim s ≡ s) × (is_empty s ≡ false)
Ends-trim s e = (rw e.shape (trim_between b'"' e.last e.middle (omega arith) e.visible), rw e.shape)

-- An object of plain keys without colons, with plain texts and flags as values, is read as the map of
-- its fields; a text is plain if `json_string` leaves it alone and it has no comma.
pub parse_json_fields-items :
    (f : Field) (fs : List Field)
    → All (λ g. (g.0 ≢ []) × All IsKeyByte g.0 × IsPlainValue g.1) (f ∷ fs)
    → parse_json_fields (codes "{" ++ (join b',' (items (f ∷ fs)) ++ codes "}"))
      ≡ some (insert_all (f ∷ fs) [])
unfolding parse_json_fields strip_prefix
parse_json_fields-items f fs h =
    let body = join b',' (items (f ∷ fs)) in
    let (inner, filled) = Ends-trim body (join-Ends f fs) in
    rw
      (
        trim_between b'{' b'}' body (omega arith) (omega arith),
        strip_suffix-append body (codes "}"),
        inner,
        filled,
        split-join b',' (item f) (items fs) (items-Lacks (f ∷ fs) h),
      )
      (parse_items-items (f ∷ fs) [] h)

abbrev is_lower : ℕ → Bool
is_lower c = (ltb 0x60 c && ltb c 0x7b) || c == b'_'

lower-IsKeyByte : (c : ℕ) → is_lower c ≡ true → IsKeyByte c
lower-IsKeyByte c h = ground arith

abbrev pub is_key : Bytes → Bool
is_key key = not (is_empty key) && all is_lower key

-- A field with a key of lower-case letters and underscores.
pub named-IsPlainField : (f : Field) → is_key f.0 ≡ true → IsPlainValue f.1 → IsPlainField f
named-IsPlainField ([], value) h plain = absurd (cc)
named-IsPlainField (c ∷ key, value) h plain =
    (λ e. ground arith, all-All is_lower IsKeyByte lower-IsKeyByte (c ∷ key) (ground arith), plain)
