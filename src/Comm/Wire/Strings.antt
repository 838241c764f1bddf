-- ===== src/Comm/Wire/Strings.antt =====
-- The strings that lie one behind the other in the storage of an unpacked message.
use libseawolf.Base.{
  ℕ, zero, suc, ◌+◌, ◌≡◌, ◌≢◌, refl, sym, ap, subst, ◌∙◌, some, List, [], ◌∷◌, ◌++◌, append_assoc,
  arith, length, length-append, drop, drop_all,
}
use libseawolf.Comm.Message.{
  Bytes, total_data_length, copy_components, c_string, point_from, strings_at,
}

-- A C string holds no NUL.
abbrev pub NoNul : Bytes → Type 0
NoNul [] = Unit
NoNul (b ∷ bs) = (b ≢ 0) × NoNul bs

abbrev pub AllNoNul : List Bytes → Type 0
AllNoNul [] = Unit
AllNoNul (c ∷ cs) = NoNul c × AllNoNul cs

pub length-copy_components : (cs : List Bytes) → length (copy_components cs) ≡ total_data_length cs
unfolding copy_components total_data_length
length-copy_components [] = refl
length-copy_components (c ∷ cs) =
    omega (arith, length-append c (0 ∷ copy_components cs), length-copy_components cs)

c_string_lem : (c mem : Bytes) → NoNul c → c_string (c ++ (0 ∷ mem)) ≡ some c
unfolding c_string
c_string_lem [] mem h = refl
c_string_lem (zero ∷ c) mem h = absurd (h.0 refl)
c_string_lem (suc b ∷ c) mem h = rw (c_string_lem c mem h.1)

-- Where the components start that follow one another from an offset on.
unfoldable pub starts : ℕ → List Bytes → List ℕ
starts offset [] = []
starts offset (c ∷ cs) = offset ∷ starts (offset + length c + 1) cs

-- The string right behind a part of the storage.
string_behind :
    (before c mem : Bytes)
    → NoNul c
    → c_string (drop (length before) (before ++ (c ++ (0 ∷ mem)))) ≡ some c
string_behind before c mem h =
    ap c_string (drop_all before (c ++ (0 ∷ mem)) (length before) refl) ∙ c_string_lem c mem h

regroup : (before c mem : Bytes) → before ++ (c ++ (0 ∷ mem)) ≡ (before ++ (c ++ (0 ∷ []))) ++ mem
regroup before c mem =
    sym (
      append_assoc before (c ++ (0 ∷ [])) mem ∙ ap (λ l. before ++ l) (append_assoc c (0 ∷ []) mem))

length-before :
    (before c : Bytes) → length (before ++ (c ++ (0 ∷ []))) ≡ length before + length c + 1
length-before before c =
    omega (arith, length-append before (c ++ (0 ∷ [])), length-append c (0 ∷ []))

pub point_from-starts :
    (c : Bytes) (cs : List Bytes) (before : Bytes)
    → AllNoNul (c ∷ cs)
    → point_from (before ++ copy_components (c ∷ cs)) (length cs) (length before)
      ≡ some (starts (length before + length c + 1) cs)
unfolding copy_components starts point_from
point_from-starts c [] before h = refl
point_from-starts c (d ∷ cs) before h =
    let before' = before ++ (c ++ (0 ∷ [])) in
    let ih = point_from-starts d cs before' h.1 in
    let ih' =
      subst
        (λ n.
          point_from (before' ++ copy_components (d ∷ cs)) (length cs) n
          ≡ some (starts (n + length d + 1) cs))
        (length-before before c) ih in
    let ih'' =
      subst
        (λ s.
          point_from s (length cs) (length before + length c + 1)
          ≡ some (starts (length before + length c + 1 + length d + 1) cs))
        (sym (regroup before c (copy_components (d ∷ cs)))) ih' in
    rw (string_behind before c (copy_components (d ∷ cs)) h.0, point_from, ih'')

pub strings_at-starts :
    (cs : List Bytes) (before : Bytes)
    → AllNoNul cs
    → strings_at (before ++ copy_components cs) (starts (length before) cs) ≡ some cs
unfolding copy_components starts strings_at
strings_at-starts [] before h = refl
strings_at-starts (c ∷ cs) before h =
    let before' = before ++ (c ++ (0 ∷ [])) in
    let ih = strings_at-starts cs before' h.1 in
    let ih' =
      subst (λ n. strings_at (before' ++ copy_components cs) (starts n cs) ≡ some cs)
        (length-before before c) ih in
    let ih'' =
      subst (λ s. strings_at s (starts (length before + length c + 1) cs) ≡ some cs)
        (sym (regroup before c (copy_components cs))) ih' in
    rw (string_behind before c (copy_components cs) h.0, strings_at, ih'')
