-- ===== src/Engine/Call.antt =====
-- src/parser/engine.rs: CALL, which runs a module of WebAssembly.
use kssql.Common.{[], ◌∷◌, ◌++◌, ◌+◌, ◌⊎◌, inl, inr, Bytes}
use kssql.Common.Int.{ℤ, pos, negsuc}
use kssql.Common.Result.{Result, ok, err, external_error}
use kssql.Common.Exec.{Exec, pure, gets, ◌>>=◌}
use kssql.Common.Str.{Text, without}
use kssql.Common.Text.{to_decimal}

-- The files and wasmi. What fails has a message.
pub record Host : Type 1 where
  pub read_file : Text → Bytes ⊎ Bytes
  pub Module : Type 0
  pub Instance : Type 0
  pub Func : Type 0
  -- `Module::new`
  pub new_module : Bytes → Bytes ⊎ Module
  -- `instantiate` and `start`, without anything to import
  pub start_instance : Module → Bytes ⊎ Instance
  -- `get_typed_func`
  pub get_typed_func : Instance → Bytes → Bytes ⊎ Func
  pub call : Func → Bytes ⊎ ℤ

abbrev pub outside {ℓ} : {A : Type ℓ} → Bytes ⊎ A → Result A
outside (inl message) = err (external_error message)
outside (inr a) = ok a

-- "main"
abbrev pub main_name : Bytes
main_name = 109 ∷ 97 ∷ 105 ∷ 110 ∷ []

-- "WASM Result: " and an `i32`
abbrev pub signed_decimal : ℤ → Bytes
signed_decimal (pos n) = to_decimal n
signed_decimal (negsuc n) = 45 ∷ to_decimal (n + 1)

abbrev pub wasm_result : ℤ → Bytes
wasm_result n =
    (87 ∷ 65 ∷ 83 ∷ 77 ∷ 32 ∷ 82 ∷ 101 ∷ 115 ∷ 117 ∷ 108 ∷ 116 ∷ 58 ∷ 32 ∷ []) ++ signed_decimal n

module _ (host : Host) {S : Type 0} where
  open host use {read_file, new_module, start_instance, get_typed_func}

  unfoldable pub call_wasm : Bytes → Exec S ℤ
  call_wasm wasm_binary = do
    binary_module ← gets (λ s. outside (new_module wasm_binary))
    instance_of ← gets (λ s. outside (start_instance binary_module))
    func ← gets (λ s. outside (get_typed_func instance_of main_name))
    gets (λ s. outside (host.call func))

  -- The path is the second word, without its quotes.
  unfoldable pub call_path : Text → Exec S Bytes
  unfolding call_wasm to_decimal
  call_path part = do
    wasm_binary ← gets (λ s. outside (read_file (without 39 part)))
    result ← call_wasm wasm_binary
    pure (wasm_result result)
