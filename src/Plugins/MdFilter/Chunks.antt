-- ===== src/Plugins/MdFilter/Chunks.antt =====
-- internal/plugins/md_filter/plugin.go: the filter over a text that comes in chunks.
use voce.Prelude.{
  ℕ, zero, suc, ◌+◌, replicate, if◌then◌else◌, leb, ◌≡◌, refl, Bool, true, false, not, ◌&&◌, ◌==◌,
  List, [], ◌∷◌, ◌++◌, all, arith, sym, ap, ◌∙◌,
}
use voce.Plugins.MdFilter.{
  FilterState, MdFilter, new_md_filter, toggle, flush, is_markup, plain, visible, filter_rune,
  filter,
}
use mathlib.Core.List.{append_assoc}

-- Where a text is cut into chunks makes no difference: the filter that has read the first chunk reads
-- the second as it would have read it behind the first, marks that stand across the cut included.
pub filter-append :
    (a b : List ℕ) (p : MdFilter)
    → filter (a ++ b) p
      ≡ ((filter b (filter a p).0).0, (filter a p).1 ++ (filter b (filter a p).0).1)
unfolding filter
filter-append [] b p = refl
filter-append (r ∷ a) b p =
    let rest = filter-append a b (filter_rune r p).0 in
    ap (λ x. (x.0, (filter_rune r p).1 ++ x.1)) rest
    ∙ ap (λ l. ((filter b (filter a (filter_rune r p).0).0).0, l))
        (sym (append_assoc (filter_rune r p).1 (filter a (filter_rune r p).0).1 _))

-- No mark: neither a backtick, nor a bracket, nor another sign of Markdown that the filter takes out.
abbrev pub is_spoken : ℕ → Bool
is_spoken r = not (r == 96) && not (r == 93) && not (is_markup r)

filter_rune_spoken : (r : ℕ) (p : MdFilter) → all is_spoken (filter_rune r p).1 ≡ true
unfolding filter_rune visible plain flush
filter_rune_spoken r p = ground arith

all-append :
    (xs ys : List ℕ)
    → all is_spoken xs ≡ true
    → all is_spoken ys ≡ true
    → all is_spoken (xs ++ ys) ≡ true
all-append [] ys a b = b
all-append (x ∷ xs) ys a b = ground (arith, a, all-append xs ys)

-- Whatever the text and the state, what is left has no mark of Markdown in it.
pub filter_spoken : (rs : List ℕ) (p : MdFilter) → all is_spoken (filter rs p).1 ≡ true
unfolding filter
filter_spoken [] p = refl
filter_spoken (r ∷ rs) p =
    all-append (filter_rune r p).1 (filter rs (filter_rune r p).0).1 (filter_rune_spoken r p)
      (filter_spoken rs (filter_rune r p).0)

-- A text without marks is left as it is, by a filter outside code and links.
pub filter_plain_text :
    (rs : List ℕ) → all is_spoken rs ≡ true → filter rs new_md_filter ≡ (new_md_filter, rs)
unfolding filter filter_rune visible plain flush
filter_plain_text [] h = refl
filter_plain_text (r ∷ rs) h = ground (arith, h, filter_plain_text rs)

abbrev pub in_code : MdFilter
in_code = record { state = FilterState.in_code_block; backticks = 0; seen_close_bracket = false }

abbrev pub no_backtick : List ℕ → Bool
no_backtick = all (λ r. not (r == 96))

filter_code :
    (code rest : List ℕ)
    → no_backtick code ≡ true
    → filter (code ++ rest) in_code ≡ filter rest in_code
unfolding filter filter_rune visible flush
filter_code [] rest h = refl
filter_code (r ∷ code) rest h = ground (arith, h, filter_code code rest)

-- That many backticks.
abbrev pub ticks : ℕ → List ℕ
ticks n = replicate n 96

-- The filter in this state with so many backticks before it.
abbrev after_ticks : FilterState → ℕ → MdFilter
after_ticks state k = record { state = state; backticks = k; seen_close_bracket = false }

abbrev fenced : FilterState → ℕ → FilterState
fenced state n = if leb 3 n then toggle state else state

filter-ticks :
    (n k r : ℕ) (rest : List ℕ) (state : FilterState)
    → (r == 96) ≡ false
    → filter (ticks n ++ (r ∷ rest)) (after_ticks state k)
      ≡ filter (r ∷ rest) (after_ticks (fenced state (n + k)) 0)
unfolding filter filter_rune flush
filter-ticks zero k r rest state h = ground (arith, h)
filter-ticks (suc n) k r rest state h =
    filter-ticks n (suc k) r rest state h
    ∙ ap (λ m. filter (r ∷ rest) (after_ticks (fenced state m) 0)) (omega arith)

-- For a new filter and a text of `n` backticks, a newline, code without backticks, `m` backticks and a
-- rest that starts with another rune `r`: three backticks or more open a block of code, which is taken
-- out, and the rest is read outside it if the second run has three or more too, and inside it if not;
-- fewer than three at the start are only taken out, and all that follows is read as text.
pub filter_fences :
    (n m r : ℕ) (code after : List ℕ)
    → no_backtick code ≡ true
    → (r == 96) ≡ false
    → filter (ticks n ++ (10 ∷ (code ++ (ticks m ++ (r ∷ after))))) new_md_filter ≡ (
        if leb 3 n
        then filter (r ∷ after) (if leb 3 m then new_md_filter else in_code)
        else filter (10 ∷ (code ++ (ticks m ++ (r ∷ after)))) new_md_filter)
filter_fences n m r code after h e =
    let opens = filter-ticks n 0 10 (code ++ (ticks m ++ (r ∷ after))) FilterState.normal refl in
    let inside = filter_code (10 ∷ code) (ticks m ++ (r ∷ after)) h in
    let closes = filter-ticks m 0 r after FilterState.in_code_block e in
    ground (arith, opens, inside, closes)
