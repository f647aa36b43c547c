-- ===== src/Klibc/Text/Copying.antt =====
-- strcpy, strcat and strncpy
use m68k_system.Common.{
  ℕ, zero, suc, ◌+◌, ◌-◌, ◌≤◌, ◌<◌, ◌≡◌, ◌≢◌, refl, ◌⊎◌, inl, true, false, ◌==◌, if◌then◌else◌,
  some, List, [], ◌∷◌, ◌++◌, Store, write, arith, length, get_or, ltb, not, ◌&&◌,
}
use m68k_system.Klibc.Text.{strcpy, strcat, strncpy_chars, zero_fill, strncpy}
use m68k_system.Klibc.Text.Strings.{CString, CString-agree}
use m68k_system.Klibc.Text.Length.{strlen-length}

-- The store holds a copy of the string at `dest`, and no byte outside of it has changed.
pub record Copies (dest : ℕ) (cs : List ℕ) (m m' : Store) : Type 0 where
  pub string : CString m' dest cs
  pub outside : (a : ℕ) → (a < dest) ⊎ (dest + length cs < a) → m' a ≡ m a

-- Given fuel for each byte and the zero, strcpy comes to an end and copies a string to where the
-- string itself does not lie, behind it or at a lower address.
pub strcpy-Copies :
    (fuel dest src : ℕ) (cs : List ℕ) (m : Store)
    → CString m src cs
    → (dest < src) ⊎ (src + length cs < dest)
    → length cs < fuel
    → (m' : Store) × (strcpy fuel dest src m ≡ some m') × Copies dest cs m m'
unfolding strcpy
strcpy-Copies zero dest src cs m s apart f = absurd (omega arith)
strcpy-Copies (suc fuel) dest src [] m s apart f = (
  write m dest (m src),
  ground arith,
  record { string = ground arith; outside = λ a h. ground arith },
)
strcpy-Copies (suc fuel) dest src (c ∷ cs) m s apart f =
    let m1 = write m dest (m src) in
    let later : CString m1 (src + 1) cs =
      CString-agree m m1 (src + 1) cs (λ a lo hi. ground arith) s.2 in
    let (m', e, c') =
      strcpy-Copies fuel (dest + 1) (src + 1) cs m1 later (ground arith) (omega arith) in
    let more : (m1 src == 0) ≡ false = ground arith in
    (
      m',
      rw more e,
      record {
        string = (ground (arith, c'.outside dest), s.1, c'.string);
        outside = λ a h. ground (arith, c'.outside a);
      },
    )

CString-append :
    (p : ℕ) (cs ds : List ℕ) (m : Store)
    → CString m p cs
    → (m' : Store) → ((a : ℕ) → a < p + length cs → m' a ≡ m a)
    → CString m' (p + length cs) ds
    → CString m' p (cs ++ ds)
CString-append p [] ds m s m' same u = let e : p + 0 ≡ p = omega arith in rw e at u
CString-append p (c ∷ cs) ds m s m' same u =
    let e : p + suc (length cs) ≡ p + 1 + length cs = omega arith in
    (
      ground (arith, same p (omega arith)),
      s.1,
      CString-append (p + 1) cs ds m s.2 m' (λ a h. same a (omega arith)) (rw e at u),
    )

-- Given fuel for the bytes of the longer string and its zero, strcat comes to an end and joins two
-- strings, if the string at `src` lies outside of the joined one; no byte behind or before that changes.
pub strcat-Copies :
    (fuel dest src : ℕ) (cs ds : List ℕ) (m : Store)
    → CString m dest cs
    → CString m src ds
    → (dest + length cs + length ds < src) ⊎ (src + length ds < dest)
    → length cs < fuel
    → length ds < fuel
    → (m' : Store) × (strcat fuel dest src m ≡ some m')
      × CString m' dest (cs ++ ds)
      × ((a : ℕ) → (a < dest) ⊎ (dest + length cs + length ds < a) → m' a ≡ m a)
unfolding strcat
strcat-Copies fuel dest src cs ds m s t apart f g =
    let (m', e, c) = strcpy-Copies fuel (dest + length cs) src ds m t (ground arith) g in
    (
      m',
      rw (strlen-length fuel dest cs m s f) e,
      CString-append dest cs ds m s m' (λ a h. c.outside a (inl h)) c.string,
      λ a h. c.outside a (ground arith),
    )

zero_fill-at :
    (n dest a : ℕ) (m : Store)
    → zero_fill n dest m a ≡ (if not (ltb a dest) && ltb a (dest + n) then 0 else m a)
unfolding zero_fill
zero_fill-at zero dest a m = ground arith
zero_fill-at (suc n) dest a m = ground (arith, zero_fill-at n (dest + 1) a (write m dest 0))

-- What strncpy leaves at `dest`: the bytes of the string, then zeros, `n` in all.
pub record Padded (n dest : ℕ) (cs : List ℕ) (m m' : Store) : Type 0 where
  pub padded : (i : ℕ) → i < n → m' (dest + i) ≡ get_or cs i 0
  pub outside : (a : ℕ) → (a < dest) ⊎ (dest + n ≤ a) → m' a ≡ m a

strncpy_end :
    (n dest src : ℕ) (m : Store) → m src ≡ 0 → strncpy dest src (suc n) m ≡ zero_fill (suc n) dest m
unfolding strncpy strncpy_chars
strncpy_end n dest src m z =
    let stop : (m src == 0) ≡ true = ground arith in
    let e : dest + suc n - suc n ≡ dest = omega arith in rw (stop, e)

strncpy_step :
    (n dest src c : ℕ) (m : Store)
    → m src ≡ c
    → c ≢ 0
    → strncpy dest src (suc n) m ≡ strncpy (dest + 1) (src + 1) n (write m dest c)
unfolding strncpy strncpy_chars
strncpy_step n dest src c m v z =
    let more : (m src == 0) ≡ false = ground arith in
    let e : dest + suc n ≡ dest + 1 + n = omega arith in rw (more, e, v)

strncpy_none : (dest src : ℕ) (m : Store) → strncpy dest src 0 m ≡ m
unfolding strncpy strncpy_chars zero_fill
strncpy_none dest src m = refl

Padded-cons :
    (n dest c : ℕ) (cs : List ℕ) (m m' : Store)
    → Padded n (dest + 1) cs (write m dest c) m'
    → Padded (suc n) dest (c ∷ cs) m m'
Padded-cons n dest c cs m m' p = record {
  padded = at;
  outside = λ a h. ground (arith, p.outside a);
}
  where
    at : (i : ℕ) → i < suc n → m' (dest + i) ≡ get_or (c ∷ cs) i 0
    at zero h = let e : dest + 0 ≡ dest = omega arith in rw e (ground (arith, p.outside dest))
    at (suc i) h =
        let e : dest + suc i ≡ dest + 1 + i = omega arith in rw e (p.padded i (omega arith))

-- strncpy writes `n` bytes, the string's and then zeros, and no other, if the string lies behind
-- those bytes or before them.
pub strncpy-Padded :
    (n dest src : ℕ) (cs : List ℕ) (m : Store)
    → CString m src cs
    → (dest + n ≤ src) ⊎ (src + length cs < dest)
    → Padded n dest cs m (strncpy dest src n m)
strncpy-Padded zero dest src cs m s apart =
    rw strncpy_none (record { padded = λ i h. absurd (omega arith); outside = λ a h. refl })
strncpy-Padded (suc n) dest src [] m s apart = rw (strncpy_end n dest src m s) (record {
  padded = λ i h. ground (arith, zero_fill-at (suc n) dest (dest + i) m);
  outside = λ a h. ground (arith, zero_fill-at (suc n) dest a m);
})
strncpy-Padded (suc n) dest src (c ∷ cs) m s apart =
    let m1 = write m dest c in
    let ih =
      strncpy-Padded n (dest + 1) (src + 1) cs m1
        (CString-agree m m1 (src + 1) cs (λ a lo hi. ground arith) s.2) (ground arith) in
    rw (strncpy_step n dest src c m s.0 s.1)
      (Padded-cons n dest c cs m (strncpy (dest + 1) (src + 1) n m1) ih)
