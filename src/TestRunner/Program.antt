-- ===== src/TestRunner/Program.antt =====
-- How `PlanoTestCommand` of subrepos/plano/src/plano/test.py comes to its modules, and how it ends.
use bsord.Base.{
  ℕ, zero, suc, ◌≡◌, refl, ap, sym, ◌∙◌, ◌⊎◌, inl, inr, Bool, Option, none, some, Option-cases,
  List, [], ◌∷◌, ◌++◌, Text, arith,
}
use mathlib.Core.List.{append-nil, append_assoc}
use bsord.World.{World, Call, Result, ok, err, Exception}
use bsord.Commands.Endings
use bsord.TestRunner.Tests.{TestModule}
use bsord.TestRunner.Summary.{RunOptions, report_configuration}
use bsord.TestRunner.Runs.{run_tests, TempFiles}
use bsord.TestRunner.Verdict.{IsVerdict}
use bsord.TestRunner.TestCommand.{
  ModuleStore, default_list, no_modules, modules_of, append_module, import_modules,
  new_test_command,
}

append_module-modules_of :
    (m : TestModule) (store : ModuleStore)
    → modules_of (append_module m store) ≡ modules_of store ++ m ∷ []
unfolding append_module
append_module-modules_of m store = ground arith

append_module-default :
    (m : TestModule) (store : ModuleStore)
    → store.test_modules ≡ default_list
    → (append_module m store).test_modules ≡ default_list
unfolding append_module
append_module-default m store h = ground arith

default_list-modules_of :
    (store : ModuleStore)
    → store.test_modules ≡ default_list
    → store.default_modules ≡ modules_of store
default_list-modules_of store h = ground arith

module _ (import_module : Text → Option TestModule) where
  -- The modules of the names before the first one that cannot be imported.
  abbrev pub importable : List Text → List TestModule
  importable [] = []
  importable (name ∷ names) = elim (import_module name) [
    | none ↦ []
    | some m ↦ m ∷ importable names
  ]

  abbrev pub first_missing : List Text → Option Text
  first_missing [] = none
  first_missing (name ∷ names) = elim (import_module name) [
    | none ↦ some name
    | some m ↦ first_missing names
  ]

  -- The modules that the names stand for are appended in order, up to the first name that cannot be
  -- imported; and if the command was made without modules, one that is made without modules later
  -- starts with all of them.
  pub import_modules-appends :
      (names : List Text) (store : ModuleStore)
      → let (missing, store') = import_modules import_module names store in
        (missing ≡ first_missing names)
        × (modules_of store' ≡ modules_of store ++ importable names)
        × (store.test_modules ≡ default_list
            → modules_of (new_test_command store'.default_modules no_modules) ≡ modules_of store')
  unfolding import_modules new_test_command
  import_modules-appends [] store =
      (refl, sym (append-nil (modules_of store)), default_list-modules_of store)
  import_modules-appends (name ∷ names) store = elim (Option-cases (import_module name)) [
    | inl missing ↦
        rw (missing, import_modules, first_missing, importable)
          (refl, sym (append-nil (modules_of store)), default_list-modules_of store)
    | inr (m, e) ↦
        let (found, more, shared) = import_modules-appends names (append_module m store) in
        rw (e, import_modules, first_missing, importable)
          (
            found,
            more
                ∙ ap (λ ms. ms ++ importable names) (append_module-modules_of m store)
                ∙ append_assoc (modules_of store) (m ∷ []) (importable names),
            λ h. shared (append_module-default m store h),
          )
  ]

module _ (limit : ℕ → Call (Unit {0}) → Call (Unit {0})) (matches : Text → Text → Bool)
    (temps : TempFiles) where
  -- How some runs from a world on end, one after another until one raises.
  abbrev pub AreVerdicts : RunOptions → List TestModule → ℕ → World → Result (Unit {0}) → Type 0
  AreVerdicts o modules zero w r = r ≡ ok tt
  AreVerdicts o modules (suc n) w r =
      let (first, w') = run_tests limit matches temps modules o w in
      IsVerdict limit matches temps o modules (report_configuration o modules w).1 first
      × (((first ≡ ok tt) × AreVerdicts o modules n w' r)
          ⊎ ((e : Exception) × (first ≡ err e) × (r ≡ err e)))
