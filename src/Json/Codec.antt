-- ===== src/Json/Codec.antt =====
-- How the stored types are read and written, by their `json` tags: `omitempty` leaves a zero value
-- out, and a member that is missing or `null` reads as the zero value.
use lib_agent_oauth.Prelude.{
  List, true, ap, sym, eq_of_test, eq_refl, Bool-cases, inl, inr, ℕ, String, ◌≡◌, refl, Option,
  none, some, Bool, false, [], ◌∷◌, ◌==◌, if◌then◌else◌,
}
use lib_agent_oauth.Map.{Map}
use lib_agent_oauth.Json.{
  Json, Members, Elements, arr, stop, element, null, text, num, flag, obj, done, member, field,
}

-- A type that `json.Marshal` writes and `json.Unmarshal` reads back.
pub record Codec (V : Type 0) : Type 0 where
  pub encode : V → Json
  pub decode : Json → Option V
  pub decode-encode : (v : V) → decode (encode v) ≡ some v

infixl 5 ◌>>=◌
abbrev pub ◌>>=◌ : {A B : Type 0} → Option A → (A → Option B) → Option B
none >>= f = none
some a >>= f = f a

-- A `string` field.
abbrev pub as_text : Json → Option String
as_text null = some ""
as_text (text s) = some s
as_text _ = none

-- A `bool` field.
abbrev pub as_flag : Json → Option Bool
as_flag null = some false
as_flag (flag b) = some b
as_flag _ = none

-- A `time.Time` field, as a number.
abbrev pub as_num : Json → Option ℕ
as_num null = some 0
as_num (num n) = some n
as_num _ = none

-- A `[]string` field.
unfoldable pub encode_texts : List String → Elements
encode_texts [] = stop
encode_texts (s ∷ l) = element (text s) (encode_texts l)

unfoldable pub decode_texts : Elements → Option (List String)
decode_texts stop = some []
decode_texts (element j l) = do s ← as_text j; rest ← decode_texts l; some (s ∷ rest)

unfoldable pub as_texts : Json → Option (List String)
as_texts null = some []
as_texts (arr l) = decode_texts l
as_texts _ = none

decode_texts-encode : (l : List String) → decode_texts (encode_texts l) ≡ some l
unfolding decode_texts encode_texts
decode_texts-encode [] = refl
decode_texts-encode (s ∷ l) = rw (decode_texts-encode l)

pub as_texts-encode : (l : List String) → as_texts (arr (encode_texts l)) ≡ some l
unfolding as_texts
as_texts-encode l = decode_texts-encode l

-- The members of a JSON value that is read into a struct.
abbrev pub members : Json → Option Members
members null = some done
members (obj m) = some m
members _ = none

-- `omitempty` on a string.
abbrev pub put_text : String → String → Members → Members
put_text k s m = if s == "" then m else member k (text s) m

abbrev pub put_flag : String → Bool → Members → Members
put_flag k b m = if b then member k (flag b) m else m

module _ {V : Type 0} (c : Codec V) where
  -- A Go map is written as an object.
  unfoldable pub encode_members : Map V → Members
  encode_members [] = done
  encode_members ((k, v) ∷ m) = member k (c.encode v) (encode_members m)

  unfoldable pub decode_members : Members → Option (Map V)
  decode_members done = some []
  decode_members (member k j m) = do v ← c.decode j; rest ← decode_members m; some ((k, v) ∷ rest)

  unfoldable pub encode_map : Map V → Json
  encode_map m = obj (encode_members m)

  unfoldable pub decode_map : Json → Option (Map V)
  decode_map null = some []
  decode_map (obj m) = decode_members m
  decode_map _ = none

  decode_members-encode : (m : Map V) → decode_members (encode_members m) ≡ some m
  unfolding decode_members encode_members
  decode_members-encode [] = refl
  decode_members-encode ((k, v) ∷ m) = rw (c.decode-encode v) (rw (decode_members-encode m))

  -- Unmarshalling a marshalled map gives the map.
  pub decode_map-encode : (m : Map V) → decode_map (encode_map m) ≡ some m
  unfolding decode_map encode_map
  decode_map-encode m = decode_members-encode m

-- `omitempty` on a map: an empty one is left out, and reads back as empty.
unfoldable pub put_map {ℓ} : {A : Type ℓ} → String → Json → Map A → Members → Members
put_map k j [] m = m
put_map k j (_ ∷ _) m = member k j m

-- `map[string]string`
instance abbrev pub text_codec : Codec String
text_codec = record { encode = text; decode = as_text; decode-encode = λ s. refl }

-- What is read under a name from an object with optional members.
pub as_text-put_text :
    (k s : String) (m : Members) → field k m ≡ null → as_text (field k (put_text k s m)) ≡ some s
as_text-put_text k s m h = elim (Bool-cases (s == "")) [
  | inl e ↦ rw e (rw h (ap some (sym (eq_of_test s "" e))))
  | inr e ↦ rw (e, eq_refl)
]

pub field-put_text :
    (j k s : String) (m : Members) → (k == j) ≡ false → field j (put_text k s m) ≡ field j m
field-put_text j k s m h = elim (Bool-cases (s == "")) [ inl e ↦ rw e | inr e ↦ rw (e, h) ]

pub as_flag-put_flag :
    (k : String) (b : Bool) (m : Members)
    → field k m ≡ null
    → as_flag (field k (put_flag k b m)) ≡ some b
as_flag-put_flag k true m h = rw eq_refl
as_flag-put_flag k false m h = rw h

pub field-put_flag :
    (j k : String) (b : Bool) (m : Members)
    → (k == j) ≡ false
    → field j (put_flag k b m) ≡ field j m
field-put_flag j k true m h = rw h
field-put_flag j k false m h = refl

module _ {V : Type 0} (c : Codec V) where
  pub decode_map-put_map :
      (k : String) (b : Map V) (m : Members)
      → field k m ≡ null
      → decode_map c (field k (put_map k (encode_map c b) b m)) ≡ some b
  unfolding put_map
  decode_map-put_map k [] m h = rw h (unfold decode_map in refl)
  decode_map-put_map k (e ∷ b) m h = rw eq_refl (decode_map-encode c (e ∷ b))

pub field-put_map :
    {V : Type 0} (j k : String) (v : Json) (b : Map V) (m : Members)
    → (k == j) ≡ false
    → field j (put_map k v b m) ≡ field j m
unfolding put_map
field-put_map j k v [] m h = refl
field-put_map j k v (e ∷ b) m h = rw h
