-- ===== src/Config/Decode.antt =====
-- src/config.c, `global_tv_table_decode`: what the table holds behind a message, and the messages
-- that make it write beyond the table.
use midi_fighter_twister_ope.Base.{
  ℕ, suc, Bool, true, false, ◌↔◌, ◌+◌, ◌-◌, ◌*◌, ◌<◌, ◌≤◌, ◌≡◌, refl, ap, ◌∙◌, none, some, List, [],
  ◌∷◌, ◌++◌, arith, ltb, ◌==◌, if◌then◌else◌, get_or, set, length, length-set, get_or-set_lt, All,
  Bool-cases, inl, inr,
}
use midi_fighter_twister_ope.Config.Global.{put_tag, global_tv_table_decode, global_table_size}

-- The bytes of tags with their values.
abbrev pub flatten : List (ℕ × ℕ) → List ℕ
flatten [] = []
flatten (p ∷ ps) = p.0 ∷ p.1 ∷ flatten ps

-- The place of a global setting in the table, and the tag that it has in a message.
abbrev pub tag_of : ℕ → ℕ
tag_of k = if ltb k 10 then k else k + 21

-- The value that the last of the pairs with this tag has.
abbrev pub last_value : ℕ → List (ℕ × ℕ) → ℕ → ℕ
last_value tag [] default = default
last_value tag (p ∷ ps) default = last_value tag ps (if p.0 == tag then p.1 else default)

put_tag_within :
    (tag value : ℕ) (table : List ℕ)
    → length table ≡ global_table_size
    → tag < 39
    → (t : List ℕ) × ((put_tag tag value table ≡ some t)
        × ((length t ≡ global_table_size)
            × ((k : ℕ)
                → k < 18
                → get_or t k 0 ≡ (if tag == tag_of k then value else get_or table k 0))))
unfolding put_tag
put_tag_within tag value table len h = elim (Bool-cases (ltb tag 10)) [
  | inl low ↦ (
    set table tag value,
    (
      ground arith,
      (
        rw (length-set table tag value) len,
        λ k b. rw (get_or-set_lt table tag k value 0 (ground arith)) (ground arith),
      ),
    ),
  )
  | inr high ↦ elim (Bool-cases (ltb 30 tag)) [
    | inl global ↦ (
      set table (tag - 20 - 1) value,
      (
        ground arith,
        (
          rw (length-set table (tag - 20 - 1) value) len,
          λ k b. rw (get_or-set_lt table (tag - 20 - 1) k value 0 (ground arith)) (ground arith),
        ),
      ),
    )
    | inr encoder ↦ (table, (ground arith, (len, λ k b. ground arith)))
  ]
]

stop :
    (buffer : List ℕ) (left : ℕ) (table : List ℕ)
    → left ≤ 1
    → global_tv_table_decode buffer left table ≡ some table
unfolding global_tv_table_decode
stop [] left table h = ground arith
stop (tag ∷ []) left table h = ground arith
stop (tag ∷ value ∷ rest) left table h = ground arith

round :
    (tag value : ℕ) (rest : List ℕ) (left : ℕ) (table : List ℕ) (t : List ℕ)
    → 2 ≤ left
    → put_tag tag value table ≡ some t
    → global_tv_table_decode (tag ∷ value ∷ rest) left table
      ≡ global_tv_table_decode rest (left - 2) t
unfolding global_tv_table_decode
round tag value rest left table t h e = rw e (ground arith)

-- A message of tags below 39 is decoded whatever its values are: a setting has the value that came last
-- with its tag, and the one it had before if none came. The tags from 10 to 30 change nothing.
pub global_tv_table_decode-last_value :
    (ps : List (ℕ × ℕ)) (tail : List ℕ) (extra : ℕ) (table : List ℕ)
    → length table ≡ global_table_size
    → All (λ p. p.0 < 39) ps
    → extra ≤ 1
    → (t : List ℕ) × ((global_tv_table_decode (flatten ps ++ tail) (2 * length ps + extra) table
          ≡ some t)
        × ((length t ≡ global_table_size)
            × ((k : ℕ) → k < 18 → get_or t k 0 ≡ last_value (tag_of k) ps (get_or table k 0))))
global_tv_table_decode-last_value [] tail extra table len h small =
    (table, (stop tail (0 + extra) table (omega arith), (len, λ k b. refl)))
global_tv_table_decode-last_value (p ∷ ps) tail extra table len h small =
    let (t, (e, (len1, at))) = put_tag_within p.0 p.1 table len h.0 in
    let (t2, (e2, (len2, at2))) =
      global_tv_table_decode-last_value ps tail extra t len1 h.1 small in
    (
      t2,
      (
        round p.0 p.1 (flatten ps ++ tail) (2 * suc (length ps) + extra) table t (omega arith) e
            ∙ ap (λ n. global_tv_table_decode (flatten ps ++ tail) n t) (omega arith)
            ∙ e2,
        (len2, λ k b. at2 k b ∙ ap (last_value (tag_of k) ps) (at k b)),
      ),
    )

-- Whether one of the pairs has a tag of 39 or more, whose place is beyond the table.
abbrev pub reaches_beyond : List (ℕ × ℕ) → Bool
reaches_beyond [] = false
reaches_beyond (p ∷ ps) = if ltb p.0 39 then reaches_beyond ps else true

put_tag_beyond :
    (tag value : ℕ) (rest : List ℕ) (left : ℕ) (table : List ℕ)
    → 39 ≤ tag
    → 2 ≤ left
    → global_tv_table_decode (tag ∷ value ∷ rest) left table ≡ none
unfolding global_tv_table_decode put_tag
put_tag_beyond tag value rest left table h k = ground arith

-- The decoder writes beyond its table exactly for a message that has a tag of 39 or more at any place: every such
-- message does it, and no other.
pub global_tv_table_decode-eq-none_iff :
    (ps : List (ℕ × ℕ)) (tail : List ℕ) (extra : ℕ) (table : List ℕ)
    → length table ≡ global_table_size
    → extra ≤ 1
    → (global_tv_table_decode (flatten ps ++ tail) (2 * length ps + extra) table ≡ none)
      ↔ (reaches_beyond ps ≡ true)
global_tv_table_decode-eq-none_iff [] tail extra table len small =
    let e = stop tail (0 + extra) table (omega arith) in
    (λ n. absurd (ground (arith, e, n)), λ b. absurd (ground arith))
global_tv_table_decode-eq-none_iff (p ∷ ps) tail extra table len small =
    elim (Bool-cases (ltb p.0 39)) [
      | inl within ↦
          let (t, (e, (len1, at))) = put_tag_within p.0 p.1 table len (ground arith) in
          let rest = global_tv_table_decode-eq-none_iff ps tail extra t len1 small in
          let same =
            round p.0 p.1 (flatten ps ++ tail) (2 * suc (length ps) + extra) table t (omega arith) e
            ∙ ap (λ n. global_tv_table_decode (flatten ps ++ tail) n t) (omega arith) in
          rw (within, same) rest
      | inr beyond ↦
          let e =
            put_tag_beyond p.0 p.1 (flatten ps ++ tail) (2 * suc (length ps) + extra) table
              (ground arith) (omega arith) in
          rw beyond (λ n. refl, λ b. e)
    ]
