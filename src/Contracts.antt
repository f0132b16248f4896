-- ===== src/Contracts.antt =====
-- The calls of the controller contracts: src/contracts/mod.rs and src/contracts/governance.rs;
-- src/contracts/registry.rs is in the child. `ethabi::encode` is a parameter.
mod Abi
pub mod Registry
pub use Abi.*
use tellor_pallet.Base.{ℕ, List, [], ◌∷◌, ◌++◌}
use tellor_pallet.Types.{Bytes}

-- `call`: the four bytes of the function selector, then the encoded parameters.
abbrev pub call : Bytes → Bytes → Bytes
call function parameters = function ++ parameters

abbrev pub gas_limit_begin_parachain_dispute : ℕ
gas_limit_begin_parachain_dispute = 600_000

abbrev pub gas_limit_register : ℕ
gas_limit_register = 400_000

abbrev pub gas_limit_vote : ℕ
gas_limit_vote = 150_000

module _ (encode : Tokens → Bytes) where
  -- `governance::begin_parachain_dispute`.
  abbrev pub begin_parachain_dispute : ℕ → ℕ → Bytes → ℕ → ℕ → ℕ → Bytes
  unfolding call
  begin_parachain_dispute query_id timestamp value disputed_reporter dispute_initiator
        slash_amount =
      call (29 ∷ 93 ∷ 54 ∷ 159 ∷ []) (
        encode (
          token (fixed_bytes query_id) (
            token (uint timestamp) (
              token (bytes value) (
                token (address disputed_reporter)
                  (token (address dispute_initiator) (token (uint slash_amount) end)))))))

  -- `governance::vote`.
  abbrev pub vote : ℕ → ℕ → ℕ → ℕ → ℕ → ℕ → ℕ → Bytes
  unfolding call
  vote dispute_id tips_for tips_against tips_invalid reports_for reports_against reports_invalid =
      call (61 ∷ 181 ∷ 167 ∷ 166 ∷ []) (
        encode (
          token (fixed_bytes dispute_id) (
            token (uint tips_for) (
              token (uint tips_against) (
                token (uint tips_invalid) (
                  token (uint reports_for)
                    (token (uint reports_against) (token (uint reports_invalid) end))))))))
