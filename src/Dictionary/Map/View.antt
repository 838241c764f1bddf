-- ===== src/Dictionary/Map/View.antt =====
-- The abstract map of a dictionary of src/dictionary.c, and the replacing of one bucket.
use libseawolf.Base.{
  ℕ, ◌+◌, ◌≤◌, ◌<◌, ◌≡◌, ◌≢◌, refl, sym, ap, ◌∙◌, false, Option, List, [], arith, length,
  length-set, set, get_or-set_self, get_or-set_ne, bytes_eq_sound, ◌==◌, if◌then◌else◌, Bool-cases,
  inl, inr,
}
use libseawolf.ArrayList.{Ptr}
use libseawolf.Dictionary.{Key, Item, Dictionary, slot}
use libseawolf.Dictionary.Chain.{lookup, count, key_eq}
use libseawolf.Dictionary.Place.{bucket, total, total-set, Placed}

pub record IsValid (dict : Dictionary) : Type 0 where
  pub sized : length dict.buckets ≡ dict.bucket_count
  pub some_buckets : 0 < dict.bucket_count
  pub places : Placed dict.bucket_count dict.buckets
  pub counted : dict.item_count ≡ total dict.buckets

-- The abstract map.
unfoldable pub view : Dictionary → Key → Option Ptr
view dict q = lookup q (bucket dict.buckets (slot q dict.bucket_count))

abbrev pub update : (Key → Option Ptr) → Key → Option Ptr → Key → Option Ptr
update f k o q = if key_eq q k then o else f q

-- A call that wrote `o` at `k`, with `n` items afterwards.
pub record Writes (dict : Dictionary) (k : Key) (o : Option Ptr) (n : ℕ) (dict' : Dictionary)
    : Type 0 where
  pub valid : IsValid dict'
  pub items : dict'.item_count ≡ n
  pub reads : (q : Key) → view dict' q ≡ update (view dict) k o q

-- Every write replaces the bucket of its key.
pub replace_bucket :
    (dict : Dictionary) (k : Key) (o : Option Ptr) (c : List Item) (n : ℕ)
    → IsValid dict
    → ((q : Key)
        → lookup q c
          ≡ (if key_eq q k then o else lookup q (bucket dict.buckets (slot k dict.bucket_count))))
    → ((q : Key) → count q c ≤ 1)
    → ((q : Key)
        → key_eq q k ≡ false
        → count q c ≤ count q (bucket dict.buckets (slot k dict.bucket_count)))
    → n + length (bucket dict.buckets (slot k dict.bucket_count)) ≡ dict.item_count + length c
    → Writes dict k o n
        (record dict { buckets = set dict.buckets (slot k dict.bucket_count) c; item_count = n })
unfolding view
replace_bucket dict k o c n valid reads once few size =
    let s = slot k dict.bucket_count in
    let inside : s < length dict.buckets = omega (arith, valid.sized, valid.some_buckets) in
    record {
      valid = record {
        sized = length-set dict.buckets s c ∙ valid.sized;
        some_buckets = valid.some_buckets;
        places = λ q i. elim (Bool-cases (s == i)) [
          | inl t ↦
              let e : s ≡ i = ground arith in
              rw (← e, get_or-set_self dict.buckets s c [] inside)
                (once q, λ ne. other q (λ e'. ne (e')))
          | inr f ↦ rw (get_or-set_ne dict.buckets s i c [] (ground arith)) (valid.places q i)
        ];
        counted = omega (arith, total-set dict.buckets s c inside, valid.counted);
      };
      items = refl;
      reads = λ q. elim (Bool-cases (s == slot q dict.bucket_count)) [
        | inl t ↦
            let e : s ≡ slot q dict.bucket_count = ground arith in
            rw (← e, get_or-set_self dict.buckets s c [] inside) (reads q)
        | inr f ↦
            let e : s ≢ slot q dict.bucket_count = ground arith in
            rw (get_or-set_ne dict.buckets s (slot q dict.bucket_count) c [] e) (elsewhere q e)
      ];
    }
  where
    other : (q : Key) → slot q dict.bucket_count ≢ slot k dict.bucket_count → count q c ≡ 0
    other q ne = elim (Bool-cases (key_eq q k)) [
      | inl t ↦ absurd (ne (ap (λ x. slot x dict.bucket_count) (bytes_eq_sound q k t)))
      | inr f ↦ omega (arith, few q f, (valid.places q (slot k dict.bucket_count)).1 ne)
    ]

    elsewhere :
        (q : Key)
        → slot k dict.bucket_count ≢ slot q dict.bucket_count
        → lookup q (bucket dict.buckets (slot q dict.bucket_count))
          ≡ (if key_eq q k then o else lookup q (bucket dict.buckets (slot q dict.bucket_count)))
    elsewhere q ne = elim (Bool-cases (key_eq q k)) [
      | inl t ↦ absurd (ne (sym (ap (λ x. slot x dict.bucket_count) (bytes_eq_sound q k t))))
      | inr f ↦ rw f
    ]
