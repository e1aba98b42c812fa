-- ===== src/Server/Callback/RegisterName/Bounds.antt =====
-- What names a player can register (callback/register_name.rs).
use vangers_srv.Base.{
  ℕ, suc, ◌+◌, ◌-◌, ◌≤◌, ◌≡◌, refl, sym, ap, ◌∙◌, subst, arith, Bool, true, false, not, ◌&&◌, List,
  [], ◌∷◌, ◌++◌, ltb, ltb→lt, ltb→le, ◌==◌, if◌then◌else◌, length, length-append, length-take, take,
  drop, All, All-take, until_nul, Bool-cases, Option-cases, inl, inr, Result, ok, ok_or, guard,
  ◌>>=◌, ◌>>◌,
}
use vangers_srv.Base.Cstrings.{IsText, until_nul-IsText, take-append_left}
use vangers_srv.Server.Errors.{RegisterNameError, name_is_null, name_or_password_parse}
use vangers_srv.Server.Callback.RegisterName.Names.{is_control, cut, printable, extract_auth_data}

-- A byte that is neither the null byte nor a control character.
abbrev pub is_plain : ℕ → Bool
is_plain c = not (c == 0) && not (is_control c)

-- A C string of one to sixteen plain bytes.
pub record IsName (name : List ℕ) : Type 0 where
  pub text : List ℕ
  pub closed : name ≡ text ++ 0 ∷ []
  pub some_text : 1 ≤ length text
  pub short : length text ≤ 16
  pub plain : All (λ c. is_plain c ≡ true) text

-- A name that is cut.
record IsCut (name : List ℕ) : Type 0 where
  text : List ℕ
  is_text : IsText name text
  some_text : 1 ≤ length text
  short : length text ≤ 16

cut-IsCut : (name text : List ℕ) → IsText name text → 1 ≤ length text → IsCut (cut name)
unfolding cut
cut-IsCut name text h some_text =
    let size : length name ≡ length text + 1 = ap length h.closed ∙ length-append text (0 ∷ []) in
    elim (Bool-cases (ltb 16 (length name - 1))) [
      | inl t ↦ rw t (record {
        text = take 15 text;
        is_text = record {
          closed =
              ap (λ x. take 15 x ++ 0 ∷ []) h.closed
              ∙ ap (λ x. x ++ 0 ∷ [])
                  (take-append_left 15 text (0 ∷ []) (omega (arith, ltb→lt _ _ t, size)));
          whole = All-take _ 15 text h.whole;
        };
        some_text = omega (arith, length-take 15 text (omega (arith, ltb→lt _ _ t, size)));
        short = omega (arith, length-take 15 text (omega (arith, ltb→lt _ _ t, size)));
      })
      | inr t ↦ rw t (record {
        text = text;
        is_text = h;
        some_text = some_text;
        short = omega (arith, ltb→le _ _ t, size);
      })
    ]

printable-append : (xs ys : List ℕ) → printable (xs ++ ys) ≡ printable xs ++ printable ys
unfolding printable
printable-append [] ys = refl
printable-append (x ∷ xs) ys =
    ap (λ t. (if is_control x then 42 else x) ∷ t) (printable-append xs ys)

length-printable : (xs : List ℕ) → length (printable xs) ≡ length xs
unfolding printable
length-printable [] = refl
length-printable (x ∷ xs) = ap suc (length-printable xs)

printable_plain :
    (xs : List ℕ) → All (λ c. (c == 0) ≡ false) xs → All (λ c. is_plain c ≡ true) (printable xs)
unfolding printable
printable_plain [] h = tt
printable_plain (x ∷ xs) h = (ground arith, printable_plain xs h.1)

zero_kept : printable (0 ∷ []) ≡ 0 ∷ []
unfolding printable
zero_kept = refl

printable-IsName : (name : List ℕ) → IsCut name → IsName (printable name)
printable-IsName name h = record {
  text = printable h.text;
  closed =
      ap printable h.is_text.closed
      ∙ printable-append h.text (0 ∷ [])
      ∙ ap (λ t. printable h.text ++ t) zero_kept;
  some_text = omega (arith, length-printable h.text, h.some_text);
  short = omega (arith, length-printable h.text, h.short);
  plain = printable_plain h.text h.is_text.whole;
}

-- What `extract_auth_data` does with the first C string.
abbrev checked : List ℕ → List ℕ → ℕ → Result RegisterNameError (List ℕ × List ℕ)
checked found rest n = do
  guard (not (length found == 1)) name_is_null
  guard (ltb (length found) n) name_or_password_parse
  pwd ← ok_or (until_nul rest) name_or_password_parse
  ok (printable (cut found), pwd)

passed :
    (found rest name pwd : List ℕ) (n : ℕ)
    → checked found rest n ≡ ok (name, pwd)
    → (name ≡ printable (cut found)) × ((length found == 1) ≡ false)
passed found rest name pwd n h = elim (Bool-cases (length found == 1)) [
  | inl e ↦ absurd (ground (arith, rw e at h))
  | inr e ↦ elim (Bool-cases (ltb (length found) n)) [
    | inl l ↦ elim (Option-cases (until_nul rest)) [
      | inl u ↦ absurd (ground (arith, rw (e, l, u) at h))
      | inr (w, u) ↦ (let fine = rw (e, l, u) at h in cc, e)
    ]
    | inr l ↦ absurd (ground (arith, rw (e, l) at h))
  ]
]

-- Whatever a client sends, a name that is taken from it is a C string of one to sixteen bytes, none of
-- them a control character.
pub extract_auth_data-IsName :
    (bytes name pwd : List ℕ) → extract_auth_data bytes ≡ ok (name, pwd) → IsName name
unfolding extract_auth_data
extract_auth_data-IsName bytes name pwd h = elim (Option-cases (until_nul bytes)) [
  | inl t ↦ absurd (ground arith)
  | inr (found, t) ↦
      let (text, is_text) = until_nul-IsText bytes found t in
      let size : length found ≡ length text + 1 =
        ap length is_text.closed ∙ length-append text (0 ∷ []) in
      let (named, whole) =
        passed found (drop (length found) bytes) name pwd (length bytes) (rw t at h) in
      subst IsName (sym named)
        (printable-IsName (cut found) (cut-IsCut found text is_text (ground (arith, whole, size))))
]
