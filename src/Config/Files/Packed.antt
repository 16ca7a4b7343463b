-- ===== src/Config/Files/Packed.antt =====
-- The frequencies and symbol rates that `nit_new` packs.
use mptsd.Base.{
  ℕ, zero, suc, ◌+◌, ◌*◌, ◌-◌, ◌/◌, ◌%◌, ◌^◌, ◌≤◌, ◌<◌, ◌≡◌, ◌≢◌, ◌↔◌, ◌⊎◌, inl, inr, refl, sym, ap,
  ◌∙◌, [], ◌∷◌, ◌++◌, append-nil, append_assoc, Option, some, none, CString, arith, length, All,
  ltb, u32, Bool-cases, ◌==◌,
}
use mptsd.Url.{is_digit}
use mptsd.Config.Files.{
  digits_of, hex_value, packed, Nit, refused, unterminated, made, modulation_of, nit_new,
}

-- The `n` hexadecimal digits of a word, as text.
unfoldable pub unpack : ℕ → ℕ → CString
unpack zero v = []
unpack (suc n) v = unpack n (v / 16) ++ (v % 16 + b'0') ∷ []

abbrev IsDigit : ℕ → Type 0
IsDigit d = (b'0' ≤ d) × (d ≤ b'9')

digits_of-IsDigit : (s : CString) → All IsDigit (digits_of s)
unfolding digits_of
digits_of-IsDigit [] = tt
digits_of-IsDigit (c ∷ s) = elim (Bool-cases (is_digit c)) [
  | inl digit ↦ rw digit (ground arith, digits_of-IsDigit s)
  | inr other ↦ rw other (digits_of-IsDigit s)
]

unpack_step :
    (n acc d : ℕ) (ds : CString)
    → IsDigit d
    → unpack (suc n) (acc * 16 + (d - b'0')) ++ ds ≡ unpack n acc ++ d ∷ ds
unfolding unpack
unpack_step n acc d ds digit =
    let high : (acc * 16 + (d - b'0')) / 16 ≡ acc = omega arith in
    let low : (acc * 16 + (d - b'0')) % 16 + b'0' ≡ d = omega arith in
    rw (high, low) (append_assoc (unpack n acc) (d ∷ []) ds)

unpack-hex_value :
    (n acc : ℕ) (ds : CString)
    → All IsDigit ds
    → unpack (length ds + n) (hex_value acc ds) ≡ unpack n acc ++ ds
unfolding hex_value
unpack-hex_value n acc [] h = ap (λ k. unpack k acc) (omega arith) ∙ sym (append-nil (unpack n acc))
unpack-hex_value n acc (d ∷ ds) (digit, h) =
    ap (λ k. unpack k (hex_value (acc * 16 + (d - b'0')) ds)) (omega arith)
    ∙ unpack-hex_value (suc n) (acc * 16 + (d - b'0')) ds h
    ∙ unpack_step n acc d ds digit

-- 16 ^ n
abbrev pow16 : ℕ → ℕ
pow16 zero = 1
pow16 (suc n) = 16 * pow16 n

pow16-le : (m n : ℕ) → m ≤ n → pow16 m ≤ pow16 n
pow16-le zero zero h = omega arith
pow16-le zero (suc n) h = omega (arith, pow16-le zero n)
pow16-le (suc m) zero h = absurd (omega arith)
pow16-le (suc m) (suc n) h = omega (arith, pow16-le m n)

hex_value_bound :
    (m acc : ℕ) (ds : CString) → All IsDigit ds → acc < m → hex_value acc ds < m * pow16 (length ds)
unfolding hex_value
hex_value_bound m acc [] h lt = omega arith
hex_value_bound m acc (d ∷ ds) (digit, h) lt =
    grind (arith, hex_value_bound (16 * m) (acc * 16 + (d - b'0')) ds h (omega arith))

-- A text with eight digits at most is packed so that its digits can be read back; more digits do not fit.
abbrev Packs : CString → Option ℕ → Type 0
Packs text none = 8 < length (digits_of text)
Packs text (some v) = unpack (length (digits_of text)) v ≡ digits_of text

packed-Packs : (text : CString) → Packs text (packed text)
unfolding packed unpack
packed-Packs text = elim (Bool-cases (ltb 8 (length (digits_of text)))) [
  | inl long ↦ rw long (ground arith)
  | inr short ↦
      let few : length (digits_of text) ≤ 8 = ground arith in
      let below : hex_value 0 (digits_of text) < 2 ^ 32 = omega (
        arith,
        hex_value_bound 1 0 (digits_of text) (digits_of-IsDigit text) (omega arith),
        pow16-le (length (digits_of text)) 8 few,
      ) in
      let word : u32 (hex_value 0 (digits_of text)) ≡ hex_value 0 (digits_of text) = omega arith in
      let whole : length (digits_of text) ≡ length (digits_of text) + 0 = omega arith in
      rw (short, word)
        (ap (λ k. unpack k (hex_value 0 (digits_of text))) whole
          ∙ unpack-hex_value 0 0 (digits_of text) (digits_of-IsDigit text))
]

length-digits_of : (s : CString) → length (digits_of s) ≤ length s
unfolding digits_of
length-digits_of [] = omega arith
length-digits_of (c ∷ s) = ground (arith, length-digits_of s)

-- `text` fits, and is what the digits of the word say.
packed-short :
    (text : CString)
    → length (digits_of text) ≤ 8
    → (v : ℕ) × (packed text ≡ some v) × (unpack (length (digits_of text)) v ≡ digits_of text)
packed-short text short = go (packed text) refl (packed-Packs text)
  where
    go :
        (o : Option ℕ)
        → packed text ≡ o
        → Packs text o
        → (v : ℕ) × (packed text ≡ some v) × (unpack (length (digits_of text)) v ≡ digits_of text)
    go none e p = absurd (omega arith)
    go (some v) e p = (v, e, p)

packed-long : (text : CString) → 8 < length (digits_of text) → packed text ≡ none
unfolding packed
packed-long text long = ground arith

module _ (ts_id : ℕ) (freq modulation symbol_rate : CString) where
  refuse :
      (length freq ≢ 9) ⊎ (length symbol_rate ≢ 8)
      → nit_new ts_id freq modulation symbol_rate ≡ refused
  unfolding nit_new
  refuse (inl other) = ground arith
  refuse (inr other) = ground arith

  make :
      (v w : ℕ)
      → length freq ≡ 9
      → length symbol_rate ≡ 8
      → packed freq ≡ some v
      → packed symbol_rate ≡ some w
      → nit_new ts_id freq modulation symbol_rate
        ≡ made (record {
          freq = freq;
          modulation = modulation;
          symbol_rate = symbol_rate;
          ts_id = ts_id;
          freq_value = v;
          modulation_value = modulation_of modulation;
          symbol_rate_value = w;
        })
  unfolding nit_new
  make v w nine eight e f = rw (nine, eight, e, f, nit_new) refl

  overrun :
      length freq ≡ 9
      → length symbol_rate ≡ 8
      → packed freq ≡ none
      → nit_new ts_id freq modulation symbol_rate ≡ unterminated
  unfolding nit_new
  overrun nine eight e = rw (nine, eight, e, nit_new) refl

  refusal :
      nit_new ts_id freq modulation symbol_rate ≡ refused
      → (length freq ≢ 9) ⊎ (length symbol_rate ≢ 8)
  unfolding nit_new
  refusal e = elim (Bool-cases (length freq == 9)) [
    | inr other ↦ inl (ground arith)
    | inl nine ↦ elim (Bool-cases (length symbol_rate == 8)) [
      | inr other ↦ inr (ground arith)
      | inl eight ↦ absurd (ground arith)
    ]
  ]

-- A transponder is refused exactly when its frequency is not of nine or its symbol rate not of eight
-- characters. Otherwise, when a character of the frequency is no digit, the entry has the two texts in
-- words whose hexadecimal digits are the decimal digits of the texts; when all nine are digits, the
-- parsing reads past the end of its array.
pub nit_new_lem :
    (ts_id : ℕ) (freq modulation symbol_rate : CString)
    → (nit_new ts_id freq modulation symbol_rate ≡ refused
        ↔ ((length freq ≢ 9) ⊎ (length symbol_rate ≢ 8)))
      × (length freq ≡ 9
          → length symbol_rate ≡ 8
          → length (digits_of freq) ≤ 8
          → (n : Nit) × (nit_new ts_id freq modulation symbol_rate ≡ made n)
            × (n.ts_id ≡ ts_id)
            × (n.modulation_value ≡ modulation_of modulation)
            × (unpack (length (digits_of freq)) n.freq_value ≡ digits_of freq)
            × (unpack (length (digits_of symbol_rate)) n.symbol_rate_value ≡ digits_of symbol_rate))
      × (length freq ≡ 9
          → length symbol_rate ≡ 8
          → length (digits_of freq) ≡ 9
          → nit_new ts_id freq modulation symbol_rate ≡ unterminated)
nit_new_lem ts_id freq modulation symbol_rate = ((is_refused, refuses), makes, reads_on)
  where
    refuses :
        (length freq ≢ 9) ⊎ (length symbol_rate ≢ 8)
        → nit_new ts_id freq modulation symbol_rate ≡ refused
    refuses other = refuse ts_id freq modulation symbol_rate other

    is_refused :
        nit_new ts_id freq modulation symbol_rate ≡ refused
        → (length freq ≢ 9) ⊎ (length symbol_rate ≢ 8)
    is_refused e = refusal ts_id freq modulation symbol_rate e

    makes :
        length freq ≡ 9
        → length symbol_rate ≡ 8
        → length (digits_of freq) ≤ 8
        → (n : Nit) × (nit_new ts_id freq modulation symbol_rate ≡ made n)
          × (n.ts_id ≡ ts_id)
          × (n.modulation_value ≡ modulation_of modulation)
          × (unpack (length (digits_of freq)) n.freq_value ≡ digits_of freq)
          × (unpack (length (digits_of symbol_rate)) n.symbol_rate_value ≡ digits_of symbol_rate)
    makes nine eight short =
        let (v, e, u) = packed-short freq short in
        let (w, f, t) = packed-short symbol_rate (omega (arith, length-digits_of symbol_rate)) in
        (
          record {
            freq = freq;
            modulation = modulation;
            symbol_rate = symbol_rate;
            ts_id = ts_id;
            freq_value = v;
            modulation_value = modulation_of modulation;
            symbol_rate_value = w;
          },
          make ts_id freq modulation symbol_rate v w nine eight e f,
          refl,
          refl,
          u,
          t,
        )

    reads_on :
        length freq ≡ 9
        → length symbol_rate ≡ 8
        → length (digits_of freq) ≡ 9
        → nit_new ts_id freq modulation symbol_rate ≡ unterminated
    reads_on nine eight full =
        overrun ts_id freq modulation symbol_rate nine eight (packed-long freq (omega arith))
