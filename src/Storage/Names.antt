-- ===== src/Storage/Names.antt =====
-- upload(): the name under which a file is stored.
use internship_project.Base.{
  ℕ, zero, suc, ◌≤◌, ◌≡◌, refl, sym, ap, inl, inr, Bool, true, false, ◌||◌, arith, List, [], ◌∷◌,
  ◌++◌, ◌-◌, Text, codes, text_eq, text_eq_iff, none, any, ◌∙◌, ◌==◌, Bool-cases, length, drop, All,
  Has, length-drop,
}
use mathlib.Core.Bool.{false≢true}
use internship_project.Storage.{
  inherited, UploadedFile, slash, is_word, has_dot, drop_extension, sanitise, last_units, max_stem,
  or_file, stem_of, extension_for_mime, object_path,
}

-- Letters, digits, underscores and hyphens: no dot, no slash, no space.
abbrev pub IsWord : Text → Type 0
IsWord t = All (λ c. is_word c ≡ true) t

sanitise-IsWord : (inside : Bool) (t : Text) → IsWord (sanitise inside t)
unfolding sanitise
sanitise-IsWord inside [] = tt
sanitise-IsWord inside (c ∷ t) = elim (Bool-cases (is_word c)) [
  | inl e ↦ rw e (e, sanitise-IsWord false t)
  | inr e ↦ elim (Bool-cases inside) [
    | inl i ↦ rw (e, i) (sanitise-IsWord true t)
    | inr i ↦ rw (e, i) (refl, sanitise-IsWord true t)
  ]
]

IsWord-drop : (n : ℕ) (t : Text) → IsWord t → IsWord (drop n t)
IsWord-drop zero t h = h
IsWord-drop (suc n) [] h = tt
IsWord-drop (suc n) (c ∷ t) (p, h) = IsWord-drop n t h

or_file-IsWord : (t : Text) → IsWord t → IsWord (or_file t)
or_file-IsWord [] h = (refl, (refl, (refl, (refl, tt))))
or_file-IsWord (c ∷ t) h = h

or_file-length : (t : Text) → length t ≤ 80 → (1 ≤ length (or_file t)) × (length (or_file t) ≤ 80)
or_file-length [] h = omega arith
or_file-length (c ∷ t) h = omega arith

stem_bounds :
    (name : Text)
    → IsWord (stem_of name) × (1 ≤ length (stem_of name)) × (length (stem_of name) ≤ 80)
unfolding stem_of
stem_bounds name =
    let t = sanitise false (drop_extension name) in
    let (low, high) =
      or_file-length (last_units max_stem t) (omega (arith, length-drop (length t - 80) t)) in
    (
      or_file-IsWord (last_units max_stem t)
          (IsWord-drop (length t - 80) t (sanitise-IsWord false (drop_extension name))),
      low,
      high,
    )

-- The extensions that the table gives.
abbrev pub extensions : List Text
extensions = codes "png" ∷ codes "jpg" ∷ codes "gif" ∷ codes "webp" ∷ codes "pdf" ∷ codes "bin" ∷ []

abbrev pub has_slash : Text → Bool
has_slash t = any (λ c. c == slash) t

-- A key with a slash is no inherited one.
inherited-none : (mime : Text) → has_slash mime ≡ true → inherited mime ≡ none
inherited-none mime h = elim (Bool-cases (text_eq mime (codes "constructor"))) [
  | inl e ↦ absurd (false≢true (sym (ap has_slash ((text_eq_iff _ _).0 e)) ∙ h))
  | inr e ↦ elim (Bool-cases (text_eq mime (codes "__proto__"))) [
    | inl f ↦ absurd (false≢true (sym (ap has_slash ((text_eq_iff _ _).0 f)) ∙ h))
    | inr f ↦ rw (e, f) refl
  ]
]

extension_for_mime-listed :
    (mime : Text) → has_slash mime ≡ true → Has (extension_for_mime mime) extensions
unfolding extension_for_mime
extension_for_mime-listed mime slashed = elim (Bool-cases (text_eq mime (codes "image/png"))) [
  | inl e ↦ rw e (inl refl)
  | inr e ↦
      rw e
        (elim (Bool-cases (text_eq mime (codes "image/jpeg") || text_eq mime (codes "image/jpg"))) [
          | inl f ↦ rw f (inr (inl refl))
          | inr f ↦ rw f (elim (Bool-cases (text_eq mime (codes "image/gif"))) [
            | inl g ↦ rw g (inr (inr (inl refl)))
            | inr g ↦ rw g (elim (Bool-cases (text_eq mime (codes "image/webp"))) [
              | inl h ↦ rw h (inr (inr (inr (inl refl))))
              | inr h ↦ rw h (elim (Bool-cases (text_eq mime (codes "application/pdf"))) [
                | inl k ↦ rw k (inr (inr (inr (inr (inl refl)))))
                | inr k ↦
                    rw (k, inherited-none mime slashed) (inr (inr (inr (inr (inr (inl refl))))))
              ])
            ])
          ])
        ])
]

abbrev pub IsSafePath : (group_id uuid path : Text) → Type 0
IsSafePath group_id uuid path =
    (stem ext : Text) × (path ≡ group_id ++ (slash ∷ (uuid ++ (45 ∷ (stem ++ (46 ∷ ext))))))
    × IsWord stem
    × (1 ≤ length stem)
    × (length stem ≤ 80)
    × Has ext extensions

-- A file is stored below its group, under the random id, a hyphen, a stem of 1 to 80 letters,
-- digits, underscores and hyphens, a dot, and one of the six extensions of the table, whatever the
-- uploader's file name is and whatever the MIME type is, as long as it has a slash.
pub object_path-IsSafe :
    (to_lower : Text → Text) (group_id uuid : Text) (file : UploadedFile)
    → has_slash (to_lower file.mimetype) ≡ true
    → IsSafePath group_id uuid (object_path to_lower group_id uuid file)
unfolding object_path
object_path-IsSafe to_lower group_id uuid file slashed =
    let (word, low, high) = stem_bounds file.originalname in
    (
      stem_of file.originalname,
      extension_for_mime (to_lower file.mimetype),
      refl,
      word,
      low,
      high,
      extension_for_mime-listed (to_lower file.mimetype) slashed,
    )

has_dot-absent : (t : Text) → All (λ c. (c == 46) ≡ false) t → has_dot t ≡ false
has_dot-absent [] h = refl
has_dot-absent (c ∷ t) (n, h) = rw n (has_dot-absent t h)

drop_extension-append :
    (s e : Text) → IsWord s → All (λ c. (c == 46) ≡ false) e → drop_extension (s ++ (46 ∷ e)) ≡ s
unfolding drop_extension
drop_extension-append [] e w h = rw (has_dot-absent e h) refl
drop_extension-append (c ∷ s) e (p, w) h =
    let kept : (c == 46) ≡ false = ground (arith, p) in
    rw kept (ap (◌∷◌ c) (drop_extension-append s e w h))

sanitise-word : (s : Text) → IsWord s → sanitise false s ≡ s
unfolding sanitise
sanitise-word [] w = refl
sanitise-word (c ∷ s) (p, w) = rw p (ap (◌∷◌ c) (sanitise-word s w))

-- A plain name keeps its stem: where the uploader's file name is such a stem, a dot and an
-- extension without dots, it is stored under that stem.
pub stem_of-append :
    (s e : Text)
    → IsWord s
    → 1 ≤ length s
    → length s ≤ 80
    → All (λ c. (c == 46) ≡ false) e
    → stem_of (s ++ (46 ∷ e)) ≡ s
unfolding stem_of
stem_of-append [] e w low high h = absurd (omega arith)
stem_of-append (c ∷ s) e w low high h =
    let short : length (c ∷ s) - 80 ≡ 0 = omega arith in
    rw (drop_extension-append (c ∷ s) e w h, sanitise-word (c ∷ s) w, short) refl
