-- ===== src/Panic.antt =====
-- The panic handler, panic.c. `print` writes a line to the standard error at once, so a handler gives the
-- lines that it prints, in order; numbers and texts are kept unrendered, and the cut of a line at
-- 255 characters is left out. libunwind is the parameter `unwinder`: a step makes one cursor of
-- another, and registers are read without an error. `hex` writes a number as printf's %x does.
pub mod Marks
use bsord.Base.{
  ℕ, zero, suc, Bool, true, false, Option, none, some, List, [], ◌∷◌, ◌++◌, Text, str, take, eqb,
  ltb, if◌then◌else◌,
}
use bsord.Base.Int.{ℤ, pos, negsuc}

pub data Register : Type 0 where
  rax rbx rcx rdx rdi rsi rbp rsp r8 r9 r10 r11 r12 r13 r14 r15 : Register

pub record Unwinder (Context Cursor : Type 0) : Type 0 where
  -- `unw_init_local`: an error, 0 for none, and the cursor
  pub init_local : Context → ℤ × Cursor
  -- `unw_step`: negative for an error, 0 at the last frame, positive otherwise
  pub step : Cursor → ℤ × Cursor
  pub get_ip : Cursor → ℕ
  pub get_sp : Cursor → ℕ
  pub get_register : Register → Cursor → ℕ

pub data Line : Type 0 where
  panic_start panic_end registers_title backtrace_title : Line
  signal process thread : ℕ → Text → Line
  libunwind_error : ℤ → Line
  ip_and_sp : ℕ → ℕ → Line
  register_row : List (Text × ℕ) → Line
  -- The number, the IP and the SP of a frame, and what follows them on its line.
  frame : ℕ → ℕ → ℕ → Text → Line

abbrev pub backtrace_limit : ℕ
backtrace_limit = 64

-- An IP below this is taken for one of the program's own code.
abbrev pub program_limit : ℕ
program_limit = 0x3fffffffffff

abbrev pub is_negative : ℤ → Bool
is_negative (pos n) = false
is_negative (negsuc n) = true

abbrev pub is_zero : ℤ → Bool
is_zero (pos zero) = true
is_zero _ = false

-- What the search of `print_registers` comes to.
pub data Search (Cursor : Type 0) : Type 0 where
  found : ℕ → Cursor → Search Cursor
  failed exhausted : Search Cursor

module _ {Context Cursor : Type 0} (unwinder : Unwinder Context Cursor) where
  -- The loop of `print_registers`, with the rounds that are left, the index and the cursor.
  unfoldable pub search_frame : ℕ → ℕ → Cursor → Search Cursor
  search_frame zero index cursor = exhausted
  search_frame (suc rounds) index cursor =
      let (ret, next) = unwinder.step cursor in
      let rest = search_frame rounds (suc index) next in
      if is_negative ret
      then failed
      else if ltb (unwinder.get_ip next) program_limit
      then found index next
      else rest

  -- `print_registers_x86_64`
  unfoldable pub print_registers_x86_64 : Cursor → List Line
  print_registers_x86_64 cursor =
      let at = λ (r : Register). unwinder.get_register r cursor in
      register_row ((str "RAX", at rax) ∷ (str "RDI", at rdi) ∷ (str "R11", at r11) ∷ [])
      ∷ register_row ((str "RBX", at rbx) ∷ (str "RBP", at rbp) ∷ (str "R12", at r12) ∷ [])
      ∷ register_row ((str "RCX", at rcx) ∷ (str "R8", at r8) ∷ (str "R13", at r13) ∷ [])
      ∷ register_row ((str "RDX", at rdx) ∷ (str "R9", at r9) ∷ (str "R14", at r14) ∷ [])
      ∷ register_row ((str "RSI", at rsi) ∷ (str "R10", at r10) ∷ (str "R15", at r15) ∷ [])
      ∷ []

  -- The end of `print_registers`, for the cursor of the frame that it has settled on.
  unfoldable pub print_frame_registers : Bool → Cursor → List Line
  unfolding print_registers_x86_64
  print_frame_registers is_x86_64 cursor =
      registers_title
      ∷ ip_and_sp (unwinder.get_ip cursor) (unwinder.get_sp cursor)
      ∷ (if is_x86_64 then print_registers_x86_64 cursor else [])

  -- What `print_registers` returns and prints after the search. An error of a step is printed as
  -- `err`, which is 0 then; if no frame is found, the first is shown, and the index is the limit.
  abbrev pub print_search : Bool → Context → ℤ → Search Cursor → ℤ × List Line
  print_search is_x86_64 context err failed = (negsuc 0, libunwind_error err ∷ [])
  print_search is_x86_64 context err (found index at) =
      (pos index, print_frame_registers is_x86_64 at)
  print_search is_x86_64 context err exhausted = (
    pos backtrace_limit,
    print_frame_registers is_x86_64 (unwinder.step (unwinder.init_local context).1).1,
  )

  -- `print_registers`
  unfoldable pub print_registers : Bool → Context → ℤ × List Line
  unfolding search_frame print_frame_registers
  print_registers is_x86_64 context =
      let (err, cursor) = unwinder.init_local context in
      if is_zero err
      then print_search is_x86_64 context err (search_frame backtrace_limit 0 cursor)
      else (negsuc 0, libunwind_error err ∷ [])

  module _ (hex : ℕ → Text) (program_name : Text) where
    -- The hint on the line of a frame, which `snprintf` cuts at 63 characters.
    unfoldable pub frame_field : ℕ → Text
    frame_field ip = take 63 (str " # addr2line -a 0x" ++ (hex ip ++ (str " -e " ++ program_name)))

    -- The loop of `print_backtrace`.
    unfoldable pub print_frames : ℕ → ℕ → ℕ → Cursor → List Line
    unfolding frame_field
    print_frames zero i index cursor = []
    print_frames (suc rounds) i index cursor =
        let (ret, next) = unwinder.step cursor in
        let ip = unwinder.get_ip next in
        let field = if eqb i index then frame_field ip else [] in
        let rest = print_frames rounds (suc i) index next in
        if is_negative ret
        then libunwind_error ret ∷ []
        else if is_zero ret
        then []
        else frame i ip (unwinder.get_sp next) field ∷ rest

    -- `print_backtrace`
    unfoldable pub print_backtrace : Context → ℕ → List Line
    unfolding print_frames
    print_backtrace context index =
        let (err, cursor) = unwinder.init_local context in
        if is_zero err
        then backtrace_title ∷ print_frames backtrace_limit 0 index cursor
        else libunwind_error err ∷ []

    -- `if (index >= 0) print_backtrace(...)`
    abbrev backtrace_of : Context → ℤ → List Line
    backtrace_of context (pos index) = print_backtrace context index
    backtrace_of context (negsuc n) = []

    -- The part of `panic_handler` for a context that `unw_getcontext` has filled in.
    unfoldable pub print_context : Bool → Context → List Line
    unfolding print_registers print_backtrace
    print_context is_x86_64 context =
        let (index, lines) = print_registers is_x86_64 context in
        lines ++ (backtrace_of context index ++ panic_end ∷ [])

    -- The name that the handler gives a signal, by Linux's numbers.
    unfoldable pub signal_name : ℕ → Text
    signal_name signum =
        if eqb signum 6
        then str "SIGABRT"
        else if eqb signum 7
        then str "SIGBUS"
        else if eqb signum 8
        then str "SIGFPE"
        else if eqb signum 4
        then str "SIGILL"
        else if eqb signum 11
        then str "SIGSEGV"
        else []

    -- `panic_handler`. The thread's name is read into the buffer that holds the signal's, which stays there
    -- if `pthread_getname_np` fails.
    unfoldable pub panic_handler : Bool → ℕ → ℕ → ℕ → Option Text → ℤ × Context → List Line
    unfolding print_context signal_name
    panic_handler is_x86_64 signum pid tid thread_name (err, context) =
        panic_start
        ∷ signal signum (signal_name signum)
        ∷ process pid program_name
        ∷ thread tid (elim thread_name [ none ↦ signal_name signum | some name ↦ name ])
        ∷ (if is_zero err then print_context is_x86_64 context else libunwind_error err ∷ [])
