-- ===== src/Plugins/MdFilter.antt =====
-- internal/plugins/md_filter/plugin.go: the filter that takes Markdown out of what an agent says. A text
-- is the list of its runes. Unicode's white space is a parameter.
pub mod Chunks
use voce.Prelude.{
  ℕ, suc, ◌≡◌, refl, Bool, true, false, not, ◌&&◌, ◌||◌, ◌==◌, leb, ltb, if◌then◌else◌, str_eq,
  List, [], ◌∷◌, ◌++◌, all, arith,
}
use voce.Schema.Properties.{Named, get_text, get_boolean}
use voce.Plugins.Sends.{Sends, signal_interrupter, payload_llm_chunk}

pub data FilterState : Type 0 where
  normal in_code_block in_link_url : FilterState

-- The buffer of backticks is their number.
pub record MdFilter : Type 0 where
  pub state : FilterState
  pub backticks : ℕ
  pub seen_close_bracket : Bool

abbrev pub new_md_filter : MdFilter
new_md_filter = record { state = FilterState.normal; backticks = 0; seen_close_bracket = false }

abbrev toggle : FilterState → FilterState
toggle FilterState.in_code_block = FilterState.normal
toggle _ = FilterState.in_code_block

-- What the loop does with the backticks before a rune that is none.
unfoldable pub flush : MdFilter → MdFilter
flush p =
    if ltb 0 p.backticks
    then record p { backticks = 0; state = if leb 3 p.backticks then toggle p.state else p.state }
    else p

-- * _ ~ # > [ and the backslash
abbrev pub is_markup : ℕ → Bool
is_markup r =
    (r == 42) || (r == 95) || (r == 126) || (r == 35) || (r == 62) || (r == 91) || (r == 92)

-- A rune outside code and links.
unfoldable pub plain : ℕ → MdFilter → MdFilter × List ℕ
plain r p =
    if (r == 40) && p.seen_close_bracket
    then (record p { state = FilterState.in_link_url; seen_close_bracket = false }, [])
    else if is_markup r
    then (record p { seen_close_bracket = false }, [])
    else if r == 93
    then (record p { seen_close_bracket = true }, [])
    else (record p { seen_close_bracket = false }, r ∷ [])

-- A rune that is no backtick, after the backticks are counted.
unfoldable pub visible : ℕ → MdFilter → MdFilter × List ℕ
visible r p = elim p.state [
  | FilterState.in_code_block ↦ (p, [])
  | FilterState.in_link_url ↦ (if r == 41 then record p { state = FilterState.normal } else p, [])
  | FilterState.normal ↦ plain r p
]

-- A turn of the loop; where it goes back by one rune, it takes the same rune again.
unfoldable pub filter_rune : ℕ → MdFilter → MdFilter × List ℕ
filter_rune r p =
    if r == 96
    then (record p { backticks = suc p.backticks; seen_close_bracket = false }, [])
    else visible r (flush p)

unfoldable pub filter : List ℕ → MdFilter → MdFilter × List ℕ
filter [] p = (p, [])
filter (r ∷ rs) p =
    let (p', out) = filter_rune r p in let (p'', more) = filter rs p' in (p'', out ++ more)

unfoldable pub on_signal : Named → MdFilter → MdFilter × List Sends
on_signal s p =
    (if str_eq s.name signal_interrupter then new_md_filter else p, Sends.pass_signal s ∷ [])

abbrev pub send_filtered : (ℕ → Bool) → Bool → MdFilter × List ℕ → MdFilter × List Sends
send_filtered is_space final (p, filtered) =
    (p, if all is_space filtered && not final then [] else Sends.chunk filtered final ∷ [])

unfoldable pub on_payload : (ℕ → Bool) → Named → MdFilter → MdFilter × List Sends
on_payload is_space payload p =
    if not (str_eq payload.name payload_llm_chunk)
    then (p, Sends.pass_payload payload ∷ [])
    else send_filtered is_space (get_boolean payload.properties "is_final" false)
        (filter (get_text payload.properties "sentence" []) p)
