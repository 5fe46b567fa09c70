-- ===== src/ToolTrail/Splice.antt =====
-- How the block of UpsertTrailOnSystem in domain/tool_trail.go is found and replaced.
use Prim.Native.Char.{Char, code}
use Prim.Native.String.{◌++◌ as ◌⊕◌}
use text.Mathlib.TextLemmas.{nil-append, cons-append}
use zeus_client_golang.Shared.{
  ℕ, String, Bool, true, false, ◌&&◌, ◌||◌, List, [], ◌∷◌, none, some, nat_eq, ◌≡◌, refl, sym, ap,
  ◌∙◌, ◌⊎◌, inl, inr, arith, Bool-cases, Option-cases,
}
use zeus_client_golang.Shared.Text.{codes, trim_right, concat}
use zeus_client_golang.Shared.Pattern.{starts_with, before}
use zeus_client_golang.ToolTrail.{trail_heading, or_whole, is_trailing_ws, splice_trail}

-- Every character of a text passes a test.
abbrev every : (ℕ → Bool) → String → Bool
every p String.[] = true
every p (String.◌∷◌ c s) = p (code c) && every p s

abbrev has_code : ℕ → List ℕ → Bool
has_code d [] = false
has_code d (c ∷ m) = nat_eq c d || has_code d m

trim_right-every : (p : ℕ → Bool) (w : String) → every p w ≡ true → trim_right p w ≡ ""
unfolding trim_right
trim_right-every p String.[] h = refl
trim_right-every p (String.◌∷◌ c w) h = elim (Bool-cases (p (code c))) [
  | inl yes' ↦ rw (yes', trim_right-every p w (ground (arith, h, yes'))) refl
  | inr no' ↦ ground (arith, h, no')
]

trim_right-append :
    (p : ℕ → Bool) (s w : String) → every p w ≡ true → trim_right p (s ⊕ w) ≡ trim_right p s
unfolding trim_right
trim_right-append p String.[] w h = rw (nil-append w) (trim_right-every p w h)
trim_right-append p (String.◌∷◌ c s) w h = rw (cons-append c s w, trim_right-append p s w h) refl

String-cases : (s : String) → (s ≡ "") ⊎ ((c : Char) × (t : String) × (s ≡ String.◌∷◌ c t))
String-cases String.[] = inl refl
String-cases (String.◌∷◌ c t) = inr (c, t, refl)

-- What trim_right drops from the end.
trim_right_split :
    (p : ℕ → Bool) (s : String) → (w : String) × (every p w ≡ true) × (s ≡ trim_right p s ⊕ w)
unfolding trim_right
trim_right_split p String.[] = ("", refl, refl)
trim_right_split p (String.◌∷◌ c s) =
    let (w, spaces, same) = trim_right_split p s in
    elim (String-cases (trim_right p s)) [
      | inr (d, t, kept) ↦
          rw kept
            (w, spaces, rw (cons-append c (String.◌∷◌ d t) w) (ap (String.◌∷◌ c) (rw kept at same)))
      | inl dropped ↦ elim (Bool-cases (p (code c))) [
        | inl blank ↦
            rw (dropped, blank)
              (
                String.◌∷◌ c w,
                ground (arith, blank, spaces),
                rw (nil-append (String.◌∷◌ c w))
                    (ap (String.◌∷◌ c) (rw (dropped, nil-append w) at same)),
              )
        | inr black ↦
            rw (dropped, black)
              (w, spaces, rw (cons-append c "" w) (ap (String.◌∷◌ c) (rw dropped at same)))
      ]
    ]

-- A marker without the character `d` does not reach over `d`.
starts_with-over :
    (m : List ℕ) (d : Char) (s t : String)
    → has_code (code d) m ≡ false
    → starts_with m (codes (s ⊕ String.◌∷◌ d t)) ≡ starts_with m (codes s)
unfolding starts_with
starts_with-over [] d s t h = refl
starts_with-over (c ∷ m) d String.[] t h = rw (nil-append (String.◌∷◌ d t)) (ground (arith, h))
starts_with-over (c ∷ m) d (String.◌∷◌ e s) t h =
    rw (cons-append e s (String.◌∷◌ d t), starts_with-over m d s t (ground (arith, h))) refl

-- A marker found at the start of a text is found in every longer one.
pub starts_with-longer :
    (m : List ℕ) (s t : String)
    → starts_with m (codes s) ≡ true
    → starts_with m (codes (s ⊕ t)) ≡ true
unfolding starts_with
starts_with-longer [] s t h = refl
starts_with-longer (c ∷ m) String.[] t h = ground (arith, h)
starts_with-longer (c ∷ m) (String.◌∷◌ e s) t h =
    rw (cons-append e s t) (ground (arith, h, starts_with-longer m s t))

before-prefix : (m : List ℕ) (s t : String) → before m (s ⊕ t) ≡ none → before m s ≡ none
unfolding before
before-prefix [] String.[] String.[] h = absurd (ground (arith, h))
before-prefix [] String.[] (String.◌∷◌ d t) h =
    let h' = rw (nil-append (String.◌∷◌ d t)) at h in absurd (ground (arith, h'))
before-prefix (c ∷ m) String.[] t h = refl
before-prefix m (String.◌∷◌ c s) t h =
    let longer = starts_with-longer m (String.◌∷◌ c s) t in
    let h' = rw (cons-append c s t) at h in
    let longer' = rw (cons-append c s t) at longer in
    ground (arith, h', longer', before-prefix m s t)

-- The text before a marker starts the text.
before-found : (m : List ℕ) (s h : String) → before m s ≡ some h → (t : String) × (s ≡ h ⊕ t)
unfolding before
before-found m String.[] h found = elim (Bool-cases (starts_with m [])) [
  | inl here ↦ let e : "" ≡ h = ground (arith, here, found) in ("", rw (sym e, nil-append "") refl)
  | inr away ↦ absurd (ground (arith, away, found))
]
before-found m (String.◌∷◌ c s) h found =
    elim (Bool-cases (starts_with m (codes (String.◌∷◌ c s)))) [
      | inl here ↦
          let e : "" ≡ h = ground (arith, here, found) in
          (String.◌∷◌ c s, rw (sym e, nil-append (String.◌∷◌ c s)) refl)
      | inr away ↦ elim (Option-cases (before m s)) [
        | inl nowhere ↦ absurd (ground (arith, away, nowhere, found))
        | inr (h', later) ↦
            let (t, same) = before-found m s h' later in
            let e : String.◌∷◌ c h' ≡ h = ground (arith, away, later, found) in
            (t, rw (sym e, cons-append c h' t) (ap (String.◌∷◌ c) same))
      ]
    ]

-- It does not hold the marker.
before-fresh :
    (c : ℕ) (m : List ℕ) (s h : String) → before (c ∷ m) s ≡ some h → before (c ∷ m) h ≡ none
unfolding before starts_with
before-fresh c m String.[] h found = absurd (ground (arith, found))
before-fresh c m (String.◌∷◌ d s) h found =
    elim (Bool-cases (starts_with (c ∷ m) (codes (String.◌∷◌ d s)))) [
      | inl here ↦ let e : "" ≡ h = ground (arith, here, found) in rw (sym e) refl
      | inr away ↦ elim (Option-cases (before (c ∷ m) s)) [
        | inl nowhere ↦ absurd (ground (arith, away, nowhere, found))
        | inr (h', later) ↦
            let (t, same) = before-found (c ∷ m) s h' later in
            let e : String.◌∷◌ d h' ≡ h = ground (arith, away, later, found) in
            let start = starts_with-longer (c ∷ m) (String.◌∷◌ d h') t in
            let longer : starts_with (c ∷ m) (codes (String.◌∷◌ d h')) ≡ true
                → starts_with (c ∷ m) (codes (String.◌∷◌ d s)) ≡ true =
              rw same (rw (cons-append d h' t) at start) in
            let fresh = before-fresh c m s h' later in
            rw (sym e) (ground (arith, away, longer, fresh))
      ]
    ]

-- A marker without the character `d` that stands after it is found there.
before-over :
    (m : List ℕ) (p : String) (d : Char) (t x : String)
    → has_code (code d) m ≡ false
    → before m p ≡ none
    → before m (String.◌∷◌ d t) ≡ some x
    → before m (p ⊕ String.◌∷◌ d t) ≡ some (p ⊕ x)
unfolding before
before-over m String.[] d t x free nowhere found =
    rw (nil-append (String.◌∷◌ d t), nil-append x) found
before-over m (String.◌∷◌ c p) d t x free nowhere found =
    let over = starts_with-over m d (String.◌∷◌ c p) t free in
    let later : before m (p ⊕ String.◌∷◌ d t) ≡ some (p ⊕ x) =
      before-over m p d t x free (ground (arith, nowhere)) found in
    let over' = rw (cons-append c p (String.◌∷◌ d t)) at over in
    rw (cons-append c p (String.◌∷◌ d t), cons-append c p x) (ground (arith, over', nowhere, later))

before-here : (m : List ℕ) (s : String) → starts_with m (codes s) ≡ true → before m s ≡ some ""
unfolding before
before-here m String.[] h = rw h refl
before-here m (String.◌∷◌ c s) h = ground (arith, h)

abbrev heading : List ℕ
heading = codes trail_heading

abbrev after_breaks : String → String
after_breaks s = String.◌∷◌ "\n" (String.◌∷◌ "\n" s)

breaks-append : (s : String) → "\n\n" ⊕ s ≡ after_breaks s
breaks-append s =
    cons-append "\n" "\n" s
    ∙ ap (String.◌∷◌ "\n") (cons-append "\n" "" s ∙ ap (String.◌∷◌ "\n") (nil-append s))

-- A block after the two line breaks that the splice writes.
before-block :
    (s : String)
    → starts_with heading (codes s) ≡ true
    → before heading (after_breaks s) ≡ some "\n\n"
unfolding before starts_with
before-block s starts = rw (before-here heading s starts) refl

abbrev rest_of : String → String
rest_of content = or_whole (before heading content) content

rest-fresh : (content : String) → before heading (rest_of content) ≡ none
rest-fresh content = elim (Option-cases (before heading content)) [
  | inl nowhere ↦ rw (nowhere, or_whole) nowhere
  | inr (h, found) ↦
      rw (found, or_whole) (before-fresh 90 (codes "EUS_TOOL_TRAIL (this turn):") content h found)
]

abbrev trimmed : String → String
trimmed content = trim_right is_trailing_ws (rest_of content)

trimmed-fresh : (content : String) → before heading (trimmed content) ≡ none
trimmed-fresh content =
    let (w, _, same) = trim_right_split is_trailing_ws (rest_of content) in
    before-prefix heading (trimmed content) w (ap (before heading) (sym same) ∙ rest-fresh content)

trimmed_idem :
    (content : String) → trim_right is_trailing_ws (trimmed content ⊕ "\n\n") ≡ trimmed content
trimmed_idem content =
    let (w, spaces, same) = trim_right_split is_trailing_ws (rest_of content) in
    trim_right-append is_trailing_ws (trimmed content) "\n\n" refl
    ∙ sym (trim_right-append is_trailing_ws (trimmed content) w spaces)
    ∙ ap (trim_right is_trailing_ws) (sym same)

spliced : (content s : String) → splice_trail content s ≡ trimmed content ⊕ after_breaks (s ⊕ "")
unfolding splice_trail concat
spliced content s = rw (breaks-append (s ⊕ "")) refl

rest-spliced :
    (content s : String)
    → starts_with heading (codes s) ≡ true
    → rest_of (splice_trail content s) ≡ trimmed content ⊕ "\n\n"
rest-spliced content s starts =
    let found =
      before-over heading (trimmed content) "\n" (String.◌∷◌ "\n" (s ⊕ "")) "\n\n" refl
        (trimmed-fresh content) (before-block (s ⊕ "") (starts_with-longer heading s "" starts)) in
    rw (spliced content s, found, or_whole) refl

pub splice_again :
    (content s snippet : String)
    → starts_with (codes trail_heading) (codes s) ≡ true
    → splice_trail (splice_trail content s) snippet ≡ splice_trail content snippet
splice_again content s snippet starts =
    spliced (splice_trail content s) snippet
    ∙ ap (λ p. p ⊕ after_breaks (snippet ⊕ ""))
        (ap (trim_right is_trailing_ws) (rest-spliced content s starts) ∙ trimmed_idem content)
    ∙ sym (spliced content snippet)
