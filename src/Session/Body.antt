-- ===== src/Session/Body.antt =====
-- The body that a handler gets, however it was split over the reads.
use aite_cs.Prelude.{
  ◌∙◌, Option-cases, ℕ, ◌-◌, true, false, [], ◌∷◌, ◌++◌, Option, none, some, Bytes, length,
  length-nonempty, length-append, take, leb, ◌==◌, ℤ, pos, negsuc, ◌≡◌, ◌≢◌, ◌↔◌, ◌⊎◌, inl, inr,
  refl, ap, arith,
}
use aite_cs.RequestParser.Machine.{Tribool, is_true, is_false, indeterminate}
use aite_cs.Server.State.{Pointer}
use aite_cs.Session.{
  bad_request, respond, read_body, content_length_of, take_body, on_header, handle_read_header,
  handle_read_body,
}
use aite_cs.Standard.Ints.{IsDecimal, value_of, stoi, stoi-decimal}

pub content_length_of-decimal :
    (ds : Bytes) → IsDecimal ds → content_length_of ds ≡ pos (value_of 0 ds)
unfolding content_length_of
content_length_of-decimal [] d = absurd (d.0 refl)
content_length_of-decimal (c ∷ ds) d = rw (content_length_of, stoi-decimal (c ∷ ds) d) refl

take-append : (xs ys : Bytes) → take (length xs) (xs ++ ys) ≡ xs
take-append [] ys = refl
take-append (x ∷ xs) ys = ap (◌∷◌ x) (take-append xs ys)

-- For an accepted header with a decimal content length above 0, the handler gets a body of that length. If the first read has brought it all, what lies
-- behind it is left out; if it has brought the part `first`, the session reads exactly the rest and puts
-- it behind.
pub handle_read_header-handle_read_body :
    (ds first later extra : Bytes) (handler : Pointer)
    → IsDecimal ds
    → value_of 0 ds ≡ length (first ++ later)
    → later ≢ []
    → (handle_read_header is_true ds (some handler) [] first ≡ read_body (length later) first)
      × (handle_read_body (some handler) first later ≡ respond handler (first ++ later))
      × (handle_read_header is_true ds (some handler) [] ((first ++ later) ++ extra)
          ≡ respond handler (first ++ later))
unfolding handle_read_header handle_read_body on_header take_body
handle_read_header-handle_read_body ds first later extra handler d n ne =
    let positive = length-nonempty later ne in
    let both = length-append first later in
    let whole = length-append (first ++ later) extra in
    let some_body : (length (first ++ later) == 0) ≡ false = ground arith in
    let short : leb (length (first ++ later)) (length first) ≡ false = ground arith in
    let long : leb (length (first ++ later)) (length ((first ++ later) ++ extra)) ≡ true =
      ground arith in
    let missing : length (first ++ later) - length first ≡ length later = omega (arith, both) in
    (
      rw (handle_read_header, content_length_of-decimal ds d, n, some_body, short, missing) refl,
      refl,
      rw
          (
            handle_read_header,
            content_length_of-decimal ds d,
            n,
            some_body,
            long,
            take-append (first ++ later) extra,
          )
          refl,
    )

on_header-refuses :
    (result : Tribool) (n : ℕ) (handler : Option Pointer) (body left : Bytes)
    → on_header result n handler body left ≢ bad_request
unfolding on_header take_body
on_header-refuses is_true n none body left e = cc
on_header-refuses is_true n (some handler) body left e = ground arith
on_header-refuses is_false n handler body left e = cc
on_header-refuses indeterminate n handler body left e = cc

-- A content length that is there and that `std::stoi` refuses or reads as a number below 0.
abbrev pub IsBadLength : Bytes → Type 0
IsBadLength field =
    (field ≢ []) × ((stoi field ≡ none) ⊎ ((n : ℕ) × (stoi field ≡ some (negsuc n))))

content_length_of-negsuc :
    (field : Bytes) → ((n : ℕ) × (content_length_of field ≡ negsuc n)) ↔ IsBadLength field
unfolding content_length_of
content_length_of-negsuc [] = (λ h. absurd (let (n, e) = h in cc), λ h. absurd (h.0 refl))
content_length_of-negsuc (c ∷ cs) = elim (Option-cases (stoi (c ∷ cs))) [
  | inl refused ↦ (λ h. ((λ e. cc), inl refused), λ h. (0, rw (content_length_of, refused) refl))
  | inr (z, read) ↦ (
    λ h. ((λ e. cc), inr (h.0, read ∙ ap some ((rw (content_length_of, read) at h.1)))),
    λ h. elim h.1 [ inl refused ↦ absurd (cc) | inr (n, e) ↦ (n, rw (content_length_of, e) refl) ],
  )
]

-- A request is refused at its header exactly when the parser refuses it, or there is a content length that
-- `std::stoi` throws at, because it begins with no number or with one that is no `int`, or reads as a
-- number below 0.
pub handle_read_header-bad_request :
    (result : Tribool) (field : Bytes) (handler : Option Pointer) (body left : Bytes)
    → (handle_read_header result field handler body left ≡ bad_request)
      ↔ ((result ≡ is_false) ⊎ IsBadLength field)
unfolding handle_read_header
handle_read_header-bad_request result field handler body left =
    go result (content_length_of field) refl
  where
    number : (n : ℕ) → content_length_of field ≡ pos n → ¬ (IsBadLength field)
    number n e bad = let (k, below) = (content_length_of-negsuc field).1 bad in cc

    go :
        (r : Tribool) (z : ℤ)
        → content_length_of field ≡ z
        → (handle_read_header r field handler body left ≡ bad_request)
          ↔ ((r ≡ is_false) ⊎ IsBadLength field)
    go r (negsuc n) e =
        (λ _. inr ((content_length_of-negsuc field).0 (n, e)), λ _. rw (handle_read_header, e) refl)
    go is_false (pos n) e = (λ _. inl refl, λ _. rw (handle_read_header, e) refl)
    go is_true (pos n) e = (
      λ h. absurd (on_header-refuses is_true n handler body left (rw (handle_read_header, e) at h)),
      λ h. elim h [ inl bad ↦ cc | inr bad ↦ absurd (number n e bad) ],
    )
    go indeterminate (pos n) e = (
      λ h.
          absurd
            (on_header-refuses indeterminate n handler body left (rw (handle_read_header, e) at h)),
      λ h. elim h [ inl bad ↦ cc | inr bad ↦ absurd (number n e bad) ],
    )

-- A content length: a field that is not there, or the decimal number of the bytes of the body.
abbrev pub Announces : Bytes → ℕ → Type 0
Announces field n = ((field ≡ []) × (n ≡ 0)) ⊎ (IsDecimal field × (value_of 0 field ≡ n))

pub content_length_of-Announces :
    (field : Bytes) (n : ℕ) → Announces field n → content_length_of field ≡ pos n
unfolding content_length_of
content_length_of-Announces field n (inl (absent, none_sent)) = rw (absent, none_sent) refl
content_length_of-Announces field n (inr (d, number)) =
    content_length_of-decimal field d ∙ ap pos number

-- A body that the first read has brought whole, empty or not, goes to the handler without what lies behind it.
pub handle_read_header-whole :
    (field body extra : Bytes) (handler : Pointer)
    → Announces field (length body)
    → handle_read_header is_true field (some handler) [] (body ++ extra) ≡ respond handler body
unfolding handle_read_header on_header take_body
handle_read_header-whole field [] extra handler a =
    rw (handle_read_header, content_length_of-Announces field 0 a) refl
handle_read_header-whole field (c ∷ body) extra handler a =
    let n = length (c ∷ body) in
    let both = length-append (c ∷ body) extra in
    let some_body : (n == 0) ≡ false = ground arith in
    let long : leb n (length (c ∷ body ++ extra)) ≡ true = ground arith in
    rw
      (
        handle_read_header,
        content_length_of-Announces field n a,
        some_body,
        long,
        take-append (c ∷ body) extra,
      )
      refl
