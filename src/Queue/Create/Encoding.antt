-- ===== src/Queue/Create/Encoding.antt =====
-- About encodeJobLabels of internal/job/service.go: the order in which its loop meets the labels,
-- and of mapsEqual.
use mathlib.Core.List.{Permᴰ, append-nil, append_assoc}
use ai_cloudhub.Common.{
  Bool, true, false, not, ◌&&◌, ◌||◌, [], ◌∷◌, ◌++◌, map, ltb, none, some, ◌≡◌, ◌≢◌, ◌≤◌, refl, ap,
  sym, subst, ◌∙◌, length, arith, All, Has, inl, inr,
}
use ai_cloudhub.Text.{Text, is_empty, trim_space, ◌==◌}
use ai_cloudhub.Text.Laws.{==_iff, ==_sym, ==_refl}
use ai_cloudhub.Table.{find, put, Unique}
use ai_cloudhub.Table.Laws.{Has-find}
use ai_cloudhub.Table.Orders.{All-perm, length-perm, map-perm, Unique-perm}
use ai_cloudhub.Job.{Labels, Codec, Result-cases, ok, label_value, labels_include}
use ai_cloudhub.Queue.Create.{
  clean_labels, encode_job_labels, label_key, maps_equal, same_labels, decode_job_labels,
}

abbrev pub trimmed : Text × Text → Text × Text
trimmed l = (trim_space l.0, trim_space l.1)

ok-injective : {a b : Labels} → ok a ≡ ok b → a ≡ b
ok-injective h = ground arith

-- What the loop checks of a label.
abbrev is_fine : Text × Text → Bool
is_fine l =
    not (is_empty (trim_space l.0))
    && not (ltb 64 (length (trim_space l.0)) || ltb 256 (length (trim_space l.1)))

abbrev Fine : Labels → Type 0
Fine ls = All (λ l. is_fine l ≡ true) ls

clean_labels-Fine : (clean ls m : Labels) → clean_labels clean ls ≡ ok m → Fine ls
unfolding clean_labels
clean_labels-Fine clean [] m h = tt
clean_labels-Fine clean ((k, v) ∷ ls) m h =
    let rest = clean_labels-Fine (put label_key (trim_space k, trim_space v) clean) ls m in
    (ground arith, rest (ground arith))

put_new :
    (l : Text × Text) (m : Labels)
    → find label_key (l.0) m ≡ none
    → put label_key l m ≡ m ++ (l ∷ [])
unfolding find put
put_new l [] h = refl
put_new l (x ∷ xs) h = ground (arith, put_new l xs)

find_behind :
    (xs rest : Labels) (l : Text × Text) (k : Text)
    → find label_key k (xs ++ (l ∷ rest)) ≡ none
    → (l.0 == k) ≡ false
unfolding find
find_behind [] rest l k h = ground arith
find_behind (y ∷ ys) rest l k h = ground (arith, find_behind ys rest l k)

Unique-append_new :
    (clean rest : Labels) (l : Text × Text)
    → Unique label_key (clean ++ (l ∷ rest))
    → find label_key (l.0) clean ≡ none
unfolding find
Unique-append_new [] rest l u = refl
Unique-append_new (x ∷ xs) rest l (new, u) =
    ground
      (arith, Unique-append_new xs rest l u, find_behind xs rest l (x.0) new, ==_sym (x.0) (l.0))

-- Where no two keys are equal once they are trimmed, the loop keeps every label.
clean_labels_all :
    (clean ls : Labels)
    → Fine ls
    → Unique label_key (clean ++ map trimmed ls)
    → clean_labels clean ls ≡ ok (clean ++ map trimmed ls)
unfolding clean_labels
clean_labels_all clean [] f u = ap ok (sym (append-nil clean))
clean_labels_all clean ((k, v) ∷ ls) (fine, f) u =
    let l = trimmed (k, v) in
    let grown = append_assoc clean (l ∷ []) (map trimmed ls) in
    let new = put_new l clean (Unique-append_new clean (map trimmed ls) l u) in
    let rest : clean_labels (put label_key l clean) ls ≡ ok (clean ++ (l ∷ map trimmed ls)) =
      ap (λ c. clean_labels c ls) new
      ∙ clean_labels_all (clean ++ (l ∷ [])) ls f (subst (λ m. Unique label_key m) (sym grown) u)
      ∙ ap ok grown in
    ground (arith, rest)

encode_ok :
    (codec : Codec) (ls m : Labels)
    → (length ls ≤ 16)
    → clean_labels [] ls ≡ ok m
    → ls ≢ []
    → encode_job_labels codec ls ≡ ok (codec.marshal_labels m)
unfolding encode_job_labels
encode_ok codec [] m few cleaned some_label = absurd (some_label refl)
encode_ok codec (l ∷ ls) m few cleaned some_label =
    let short : ltb 16 (length (l ∷ ls)) ≡ false = ground arith in rw (short, cleaned) refl

ok_encode :
    (codec : Codec) (ls : Labels) (t : Text)
    → ls ≢ []
    → encode_job_labels codec ls ≡ ok t
    → (length ls ≤ 16) × ((m : Labels) × (clean_labels [] ls ≡ ok m) × (codec.marshal_labels m ≡ t))
unfolding encode_job_labels
ok_encode codec [] t some_label h = absurd (some_label refl)
ok_encode codec (l ∷ ls) t some_label h = elim (Result-cases (clean_labels [] (l ∷ ls))) [
  | inr (e, refused) ↦ absurd (ground arith)
  | inl (m, cleaned) ↦ (ground arith, (m, cleaned, ground arith))
]

-- Whatever order the loop meets the labels in, the encoding is the same: no two keys are equal once they
-- are trimmed, and json.Marshal, which sorts the keys of a map, does not depend on an order.
pub encode_job_labels-order :
    (codec : Codec) (ls ls' : Labels) (t : Text)
    → ((a b : Labels)
        → Permᴰ a b
        → Unique label_key a
        → codec.marshal_labels a ≡ codec.marshal_labels b)
    → Unique label_key (map trimmed ls)
    → Permᴰ ls ls'
    → encode_job_labels codec ls ≡ ok t
    → encode_job_labels codec ls' ≡ ok t
unfolding encode_job_labels
encode_job_labels-order codec [] [] t sorts u d h = h
encode_job_labels-order codec [] (x ∷ xs) t sorts u d h = absurd (omega (arith, length-perm d))
encode_job_labels-order codec (l ∷ ls) [] t sorts u d h = absurd (omega (arith, length-perm d))
encode_job_labels-order codec (l ∷ ls) (x ∷ xs) t sorts u d h =
    let (few, (m, cleaned, encoded)) = ok_encode codec (l ∷ ls) t (λ e. ground arith) h in
    let fine = clean_labels-Fine [] (l ∷ ls) m cleaned in
    let fine' = All-perm (λ y. is_fine y ≡ true) d fine in
    let orders = map-perm trimmed d in
    let all = clean_labels_all [] (l ∷ ls) fine u in
    let all' = clean_labels_all [] (x ∷ xs) fine' (Unique-perm label_key orders u) in
    let same = sorts (map trimmed (l ∷ ls)) (map trimmed (x ∷ xs)) orders u in
    let is_m : map trimmed (l ∷ ls) ≡ m = ok-injective (sym all ∙ cleaned) in
    encode_ok codec (x ∷ xs) (map trimmed (x ∷ xs)) (omega (arith, few, length-perm d)) all'
      (λ e. ground arith)
    ∙ ap ok (sym same ∙ ap codec.marshal_labels is_m ∙ encoded)

-- A Go map has one value for each key, so it equals itself.
value_found : (m : Labels) (k v : Text) → find label_key k m ≡ some (k, v) → label_value k m ≡ v
unfolding find label_value
value_found [] k v h = absurd (ground arith)
value_found ((j, w) ∷ m) k v h = ground (arith, ==_iff j k, value_found m k v)

includes_part :
    (m want : Labels)
    → ((l : Text × Text) → Has l want → label_value (l.0) m ≡ l.1)
    → labels_include m want ≡ true
unfolding labels_include
includes_part m [] f = refl
includes_part m ((k, v) ∷ want) f = ground (
  arith,
  f (k, v) (inl refl),
  ==_refl v,
  includes_part m want (λ l h. f l (inr h)),
  ==_iff (label_value k m) v,
)

maps_equal_refl : (m : Labels) → Unique label_key m → maps_equal m m ≡ true
unfolding maps_equal
maps_equal_refl m u =
    let all = includes_part m m (λ l h. value_found m (l.0) (l.1) (Has-find label_key m l u h)) in
    ground (arith, all)

pub same_labels_refl :
    (codec : Codec) (t : Text)
    → ((s : Text) → Unique label_key (decode_job_labels codec s))
    → same_labels codec t t ≡ true
unfolding same_labels
same_labels_refl codec [] u = refl
same_labels_refl codec (c ∷ cs) u = maps_equal_refl (decode_job_labels codec (c ∷ cs)) (u (c ∷ cs))
