-- ===== src/Panic/Marks.antt =====
-- Which frame panic.c shows the registers of, and which line of its backtrace it marks.
use bsord.Base.{
  ℕ, zero, suc, ◌+◌, ◌<◌, ◌≤◌, ◌≡◌, refl, sym, ap, ◌∙◌, Bool, true, not, ◌&&◌, some, List, [], ◌⊎◌,
  inl, inr, Text, All, arith, get_elem?, eqb, ltb, if◌then◌else◌, Bool-cases,
}
use mathlib.Core.Path.{subst}
use bsord.Base.Int.{pos}
use bsord.Panic.{
  Unwinder, Line, frame, Search, found, failed, exhausted, backtrace_limit, program_limit,
  is_negative, is_zero, search_frame, print_search, print_frame_registers, print_registers,
  frame_field, print_frames, print_backtrace,
}

module _ {Context Cursor : Type 0} (unwinder : Unwinder Context Cursor) where
  -- The cursor after some steps.
  abbrev pub after : ℕ → Cursor → Cursor
  after zero c = c
  after (suc n) c = after n (unwinder.step c).1

  abbrev pub ip_after : ℕ → Cursor → ℕ
  ip_after n c = unwinder.get_ip (after n c)

  abbrev pub sp_after : ℕ → Cursor → ℕ
  sp_after n c = unwinder.get_sp (after n c)

  -- A step that has come to a frame.
  abbrev pub moves : Cursor → Bool
  moves c = not (is_negative (unwinder.step c).0) && not (is_zero (unwinder.step c).0)

  -- The first frames' IPs are not below the limit.
  abbrev pub AllAbove : ℕ → Cursor → Type 0
  AllAbove n c = (j : ℕ) → j < n → program_limit ≤ ip_after (suc j) c

  AllAbove-suc :
      (n : ℕ) (c : Cursor)
      → program_limit ≤ ip_after 1 c
      → AllAbove n (unwinder.step c).1
      → AllAbove (suc n) c
  AllAbove-suc n c h hs zero lt = h
  AllAbove-suc n c h hs (suc j) lt = hs j (omega arith)

  -- What the search comes to, from an index on.
  abbrev Comes : ℕ → ℕ → Cursor → Search Cursor → Type 0
  Comes rounds i c (found index at) =
      (k : ℕ) × (index ≡ i + k)
      × (k < rounds)
      × (at ≡ after (suc k) c)
      × (ip_after (suc k) c < program_limit)
      × AllAbove k c
  Comes rounds i c failed = Unit
  Comes rounds i c exhausted = AllAbove rounds c

  Comes-suc :
      (rounds i : ℕ) (c : Cursor) (s : Search Cursor)
      → program_limit ≤ ip_after 1 c
      → Comes rounds (suc i) (unwinder.step c).1 s
      → Comes (suc rounds) i c s
  Comes-suc rounds i c (found index at) h (k, e, lt, a, low, above) =
      (suc k, omega arith, omega arith, a, low, AllAbove-suc k c h above)
  Comes-suc rounds i c failed h _ = tt
  Comes-suc rounds i c exhausted h above = AllAbove-suc rounds c h above

  search_frame-Comes :
      (rounds i : ℕ) (c : Cursor) → Comes rounds i c (search_frame unwinder rounds i c)
  unfolding search_frame
  search_frame-Comes zero i c = λ j h. absurd (omega arith)
  search_frame-Comes (suc rounds) i c = elim (Bool-cases (is_negative (unwinder.step c).0)) [
    | inl bad ↦ rw bad tt
    | inr good ↦ elim (Bool-cases (ltb (ip_after 1 c) program_limit)) [
      | inl low ↦
          rw (good, low)
            (0, omega arith, omega arith, refl, ground arith, λ j h. absurd (omega arith))
      | inr high ↦
          rw (good, high)
            (Comes-suc rounds i c _ (ground arith)
              (search_frame-Comes rounds (suc i) (unwinder.step c).1))
    ]
  ]

  module _ (hex : ℕ → Text) (program_name : Text) (c : Cursor) (index : ℕ) where
    -- A line for a frame is about the frame of its number, and has the hint if that is the index.
    abbrev pub IsOf : Line → Type 0
    IsOf (frame n ip sp field) =
        (n < backtrace_limit)
        × (ip ≡ ip_after (suc n) c)
        × (sp ≡ sp_after (suc n) c)
        × (field ≡ (if eqb n index then frame_field unwinder hex program_name ip else []))
    IsOf _ = Unit

    step_after : (n : ℕ) (d : Cursor) → (unwinder.step (after n d)).1 ≡ after (suc n) d
    step_after zero d = refl
    step_after (suc n) d = step_after n (unwinder.step d).1

    print_frames-IsOf :
        (rounds i : ℕ) (d : Cursor)
        → d ≡ after i c
        → i + rounds ≤ backtrace_limit
        → All IsOf (print_frames unwinder hex program_name rounds i index d)
    unfolding print_frames
    print_frames-IsOf zero i d e h = tt
    print_frames-IsOf (suc rounds) i d e h =
        let next = ap (λ (x : Cursor). (unwinder.step x).1) e ∙ step_after i c in
        elim (Bool-cases (is_negative (unwinder.step d).0)) [
          | inl bad ↦ rw bad (tt, tt)
          | inr good ↦ elim (Bool-cases (is_zero (unwinder.step d).0)) [
            | inl last ↦ rw (good, last) tt
            | inr more ↦
                rw (good, more)
                  (
                    (omega arith, ap unwinder.get_ip next, ap unwinder.get_sp next, refl),
                    print_frames-IsOf rounds (suc i) (unwinder.step d).1 next (omega arith),
                  )
          ]
        ]

    -- The line for a frame, where the steps up to it come to frames.
    print_frames-get :
        (k rounds i : ℕ) (d : Cursor)
        → ((j : ℕ) → j ≤ k → moves (after j d) ≡ true)
        → k < rounds
        → i + k ≡ index
        → get_elem? (print_frames unwinder hex program_name rounds i index d) k
          ≡ some (
              frame index
                (ip_after (suc k) d)
                (sp_after (suc k) d)
                (frame_field unwinder hex program_name (ip_after (suc k) d)))
    unfolding print_frames
    print_frames-get k zero i d m h e = absurd (omega arith)
    print_frames-get zero (suc rounds) i d m h e = ground (arith, m 0 (omega arith))
    print_frames-get (suc k) (suc rounds) i d m h e =
        let rest =
          print_frames-get k rounds (suc i) (unwinder.step d).1 (λ j le. m (suc j) (omega arith))
            (omega arith) (omega arith) in
        ground (arith, m 0 (omega arith), rest)

    -- What `print_registers` has shown if it gives the index.
    abbrev pub IsShown : Bool → List Line → Context → Type 0
    IsShown is_x86_64 shown context =
        ((index < backtrace_limit)
          × (ip_after (suc index) c < program_limit)
          × (shown ≡ print_frame_registers unwinder is_x86_64 (after (suc index) c))
          × (((j : ℕ) → j ≤ index → moves (after j c) ≡ true)
              → get_elem? (print_backtrace unwinder hex program_name context index) (suc index)
                ≡ some (
                    frame index (ip_after (suc index) c) (sp_after (suc index) c)
                      (frame_field unwinder hex program_name (ip_after (suc index) c)))))
        ⊎ ((index ≡ backtrace_limit)
            × (shown ≡ print_frame_registers unwinder is_x86_64 (after 1 c)))

  module _ (hex : ℕ → Text) (program_name : Text) where
    found-IsShown :
        (is_x86_64 : Bool) (context : Context) (index n : ℕ) (shown : List Line) (at : Cursor)
        → is_zero (unwinder.init_local context).0 ≡ true
        → Comes backtrace_limit 0 (unwinder.init_local context).1 (found n at)
        → n ≡ index
        → shown ≡ print_frame_registers unwinder is_x86_64 at
        → let c = (unwinder.init_local context).1 in
          AllAbove index c × IsShown hex program_name c index is_x86_64 shown context
    unfolding print_backtrace
    found-IsShown is_x86_64 context index n shown at started (k, i, lt, a, low, above) e p =
        let c = (unwinder.init_local context).1 in
        let k≡index : k ≡ index = omega arith in
        subst (λ (n : ℕ). AllAbove n c × IsShown hex program_name c n is_x86_64 shown context)
          k≡index
          (
            above,
            inl (
              lt,
              low,
              p ∙ ap (print_frame_registers unwinder is_x86_64) a,
              λ m.
                  rw started (
                    print_frames-get hex program_name c k k backtrace_limit 0 c m lt (omega arith)),
            ),
          )

    Comes-IsShown :
        (is_x86_64 : Bool) (context : Context) (index : ℕ) (shown : List Line) (s : Search Cursor)
        → is_zero (unwinder.init_local context).0 ≡ true
        → Comes backtrace_limit 0 (unwinder.init_local context).1 s
        → print_search unwinder is_x86_64 context (unwinder.init_local context).0 s
          ≡ (pos index, shown)
        → let c = (unwinder.init_local context).1 in
          AllAbove index c × IsShown hex program_name c index is_x86_64 shown context
    Comes-IsShown is_x86_64 context index shown (found n at) started comes p =
        found-IsShown is_x86_64 context index n shown at started comes (cc) (cc)
    Comes-IsShown is_x86_64 context index shown failed started comes p = cc
    Comes-IsShown is_x86_64 context index shown exhausted started above p =
        let c = (unwinder.init_local context).1 in
        let at_limit : backtrace_limit ≡ index = cc in
        (subst (λ (n : ℕ). AllAbove n c) at_limit above, inr (sym at_limit, cc))

    -- If the unwinder starts and no step of the search fails, each line of the backtrace for a frame is that of
    -- the frame of its number, below 64, and has a hint exactly if that is the number that the search gave. This is the
    -- first frame whose IP is below the limit, the registers shown are its own, and its line is
    -- in the backtrace if the steps to it come to frames; or there is none, the registers are those
    -- of the first frame, and the number is 64, so that no line has a hint.
    pub print_registers-marks :
        (is_x86_64 : Bool) (context : Context) (index : ℕ) (shown : List Line)
        → is_zero (unwinder.init_local context).0 ≡ true
        → print_registers unwinder is_x86_64 context ≡ (pos index, shown)
        → let c = (unwinder.init_local context).1 in
          All
            (IsOf hex program_name c index)
            (print_backtrace unwinder hex program_name context index)
          × AllAbove index c
          × IsShown hex program_name c index is_x86_64 shown context
    unfolding print_backtrace print_registers
    print_registers-marks is_x86_64 context index shown started p =
        let c = (unwinder.init_local context).1 in
        let lines =
          print_frames-IsOf hex program_name c index backtrace_limit 0 c refl (omega arith) in
        let searched = rw started at p in
        let (above, is_shown) =
          Comes-IsShown is_x86_64 context index shown _ started
            (search_frame-Comes backtrace_limit 0 c) searched in
        (rw started (tt, lines), above, is_shown)
