-- ===== src/Failover/Cloudflare/Query.antt =====
-- That two names never ask Cloudflare the same query: the query of a name can be read back.
use sidero_proxy.Base.{
  if_cases, ℕ, ◌≡◌, refl, sym, ap, ◌∙◌, ◌+◌, ◌-◌, ◌*◌, ◌/◌, ◌%◌, true, false, List, [], ◌∷◌, ◌++◌,
  ltb, ◌==◌, ==_iff, if◌then◌else◌, length, take, length-append, take-length-append, Bytes, codes,
  bytes_eq, bytes_eq_iff, Bool-cases, inl, inr, append_assoc, arith,
}
use sidero_proxy.Failover.Cloudflare.{
  is_unreserved, hex_digit, escape_byte, query_escape, list_query,
}

-- Where the reader of an escaped text is: between two characters, behind a percent sign, or behind its
-- first digit.
data Mode : Type 0 where
  plain percent : Mode
  digit : ℕ → Mode

abbrev hex_value : ℕ → ℕ
hex_value d = if ltb d 58 then d - 48 else d - 55

unescape : Mode → Bytes → Bytes
unescape mode [] = []
unescape plain (b ∷ s) =
    let escaped = unescape percent s in
    let rest = unescape plain s in
    if b == b'%' then escaped else (if b == b'+' then 32 else b) ∷ rest
unescape percent (b ∷ s) = unescape (digit b) s
unescape (digit d) (b ∷ s) = (hex_value d * 16 + hex_value b) ∷ unescape plain s

hex_value-hex_digit : (d : ℕ) → hex_value (hex_digit d) ≡ d
hex_value-hex_digit d = ground arith

unreserved_ne : (b : ℕ) → is_unreserved b ≡ true → ((b == b'%') ≡ false) × ((b == b'+') ≡ false)
unreserved_ne b h = (differs b'%' refl, differs b'+' refl)
  where
    differs : (c : ℕ) → is_unreserved c ≡ false → (b == c) ≡ false
    differs c k = elim (Bool-cases (b == c)) [
      | inl e ↦
          let same : b ≡ c = (==_iff b c).0 e in
          absurd (ground (arith, sym h ∙ ap is_unreserved same ∙ k))
      | inr e ↦ e
    ]

unescape_plain :
    (b : ℕ) (t : Bytes)
    → ((b == b'%') ≡ false) × ((b == b'+') ≡ false)
    → unescape plain (b ∷ t) ≡ b ∷ unescape plain t
unfolding unescape
unescape_plain b t (h, k) =
    ap (λ x. if x then unescape percent t else (if b == b'+' then 32 else b) ∷ unescape plain t) h
    ∙ ap (λ x. (if x then 32 else b) ∷ unescape plain t) k

unescape-escape_byte :
    (b : ℕ) (t : Bytes) → unescape plain (escape_byte b ++ t) ≡ b ∷ unescape plain t
unfolding unescape
unescape-escape_byte b t =
    let Reads = λ (x : Bytes). unescape plain (x ++ t) ≡ b ∷ unescape plain t in
    let escaped = b'%' ∷ hex_digit (b / 16) ∷ hex_digit (b % 16) ∷ [] in
    let value : hex_value (hex_digit (b / 16)) * 16 + hex_value (hex_digit (b % 16)) ≡ b =
      omega (arith, hex_value-hex_digit (b / 16), hex_value-hex_digit (b % 16)) in
    if_cases Reads (is_unreserved b) (b ∷ []) (if b == 32 then b'+' ∷ [] else escaped)
      (λ e. unescape_plain b t (unreserved_ne b e))
      (λ e.
        if_cases Reads (b == 32) (b'+' ∷ []) escaped
          (λ f. ap (λ n. n ∷ unescape plain t) (sym ((==_iff b 32).0 f)))
          (λ f. ap (λ n. n ∷ unescape plain t) value))

unescape-query_escape : (s t : Bytes) → unescape plain (query_escape s ++ t) ≡ s ++ unescape plain t
unfolding query_escape
unescape-query_escape [] t = refl
unescape-query_escape (b ∷ s) t =
    ap (unescape plain) (append_assoc (escape_byte b) (query_escape s) t)
    ∙ unescape-escape_byte b (query_escape s ++ t)
    ∙ ap (λ r. b ∷ r) (unescape-query_escape s t)

append-cancel : {A : Type 0} (a b t : List A) → a ++ t ≡ b ++ t → a ≡ b
append-cancel a b t h =
    let same : length a ≡ length b =
      omega (arith, length-append a t, length-append b t, ap length h) in
    sym (take-length-append a t)
    ∙ ap (take (length a)) h
    ∙ ap (λ n. take n (b ++ t)) same
    ∙ take-length-append b t

unescape-list_query :
    (name : Bytes) → unescape plain (list_query name) ≡ codes "name=" ++ (name ++ codes "&type=A")
unfolding unescape
unescape-list_query name =
    ap (λ t. codes "name=" ++ t) (unescape-query_escape name (codes "&type=A"))

pub list_query-injective : (a b : Bytes) → list_query a ≡ list_query b → a ≡ b
list_query-injective a b h =
    let texts = sym (unescape-list_query a) ∙ ap (unescape plain) h ∙ unescape-list_query b in
    append-cancel a b (codes "&type=A") (cancel texts)
  where
    cancel : {s t : Bytes} → codes "name=" ++ s ≡ codes "name=" ++ t → s ≡ t
    cancel h = ground (arith, h)

pub list_query_eq : (a b : Bytes) → bytes_eq (list_query a) (list_query b) ≡ bytes_eq a b
list_query_eq a b = elim (Bool-cases (bytes_eq a b)) [
  | inl e ↦
      ap (λ t. bytes_eq (list_query a) (list_query t)) (sym ((bytes_eq_iff a b).0 e))
      ∙ (bytes_eq_iff (list_query a) (list_query a)).1 refl
      ∙ sym e
  | inr e ↦ ground (
    arith,
    bytes_eq_iff (list_query a) (list_query b),
    bytes_eq_iff a b,
    list_query-injective a b,
    e,
  )
]
