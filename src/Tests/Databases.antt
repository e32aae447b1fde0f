-- ===== src/Tests/Databases.antt =====
-- A database of one chain, and of one transaction of an account.
use dymension_rollapp_block.Common.{
  ℕ, ◌<◌, ◌≡◌, refl, Bool, true, false, Option, none, some, List, [], ◌∷◌, ◌++◌, Member, here,
  there, filter, member-filter_iff, take, drop, length, get_elem?, arith,
}
use dymension_rollapp_block.Common.Text.{text, ◌===◌}
use dymension_rollapp_block.Common.Decimal.{to_string}
use dymension_rollapp_block.Common.Dict.{get}
use dymension_rollapp_block.Common.Locale.{ascii}
use dymension_rollapp_block.Pagination.{string, undefined}
use dymension_rollapp_block.Address.{RollappAddress, ok, to_bech32, is_evm_address}
use dymension_rollapp_block.Address.Hex.{to_hex_text}
use dymension_rollapp_block.Database.{Query, AreToldApart, Model}
use dymension_rollapp_block.Database.Accounts.{
  RefRow, ref_matches, get_account_transactions_where_condition,
}
use dymension_rollapp_block.Account.{
  get_filter_options_from_tx_type, PageServices, account_of, resolve, address_page, transactions_of,
  todo_fields,
}
use dymension_rollapp_block.Account.Forms.{forms_agree}
use dymension_rollapp_block.Account.Listed.{account_transaction_listed}
use dymension_rollapp_block.Tests.Data.{dym_info}
use dymension_rollapp_block.Tests.Addresses.{plain, encode}

abbrev pub paged : {A : Type 0} → Option ℕ → Option ℕ → List A → List A
paged (some skip) (some number) xs = take number (drop skip xs)
paged none (some number) xs = take number xs
paged (some skip) none xs = drop skip xs
paged none none xs = xs

abbrev pub find_in :
    {Row Where : Type 0} → (Where → Row → Bool) → List Row → Query Row Where → List Row
find_in matches table q = paged q.skip q.number (filter (matches q.condition) table)

pub length-paged :
    {A : Type 0} (skip number : Option ℕ) (xs : List A)
    → skip ≡ none
    → number ≡ none
    → length xs ≡ length (paged skip number xs)
length-paged none none xs a b = refl
length-paged none (some n) xs a b = cc
length-paged (some s) none xs a b = cc
length-paged (some s) (some n) xs a b = cc

abbrev pub model :
    {Row Where : Type 0} (matches : Where → Row → Bool) → List Row → Model Row Where matches
model matches table = record {
  table = table;
  find_many = find_in matches table;
  count = λ w. length (filter (matches w) table);
  found_iff = λ r w order. member-filter_iff (matches w) r table;
  paged = λ q skip number apart. refl;
  counted = λ q a b. length-paged q.skip q.number (filter (matches q.condition) table) a b;
}

abbrev sevens : List ℕ
sevens = 7 ∷ 7 ∷ 7 ∷ 7 ∷ 7 ∷ 7 ∷ 7 ∷ 7 ∷ 7 ∷ 7 ∷ 7 ∷ 7 ∷ 7 ∷ 7 ∷ 7 ∷ 7 ∷ 7 ∷ 7 ∷ 7 ∷ 7 ∷ []

abbrev holder : RollappAddress
holder = record { address = sevens; prefix = text "dym" }

abbrev moved : RefRow
moved = record {
  chain_id = text "dym_1-1";
  bech32_address = 3 ∷ text "dym" ++ sevens;
  signer = some true;
  erc20 = none;
  nft = some false;
  height = 5;
  recent_accounts_transaction = record {
    hash = text "0xab";
    height = 5;
    epoch = 100;
    message_types = text "/cosmos.bank.v1beta1.MsgSend" ∷ [];
    action = some (text "transfer:send");
  };
}

abbrev services : PageServices
services = record {
  locale = ascii;
  bech32 = plain;
  get_address = λ s. some s;
  refs = model ref_matches (moved ∷ []);
  find_unique_account = λ chain_id address. none;
}

forms_agree_example :
    (resolve services dym_info (3 ∷ text "dym" ++ sevens) ≡ ok (account_of holder))
    × (address_page services dym_info
          (text "dym-hub")
          (text "0x" ++ to_hex_text sevens)
          undefined
          undefined
          undefined
        ≡ address_page services dym_info
            (text "dym-hub")
            (3 ∷ text "DYM" ++ sevens)
            undefined
            undefined
            undefined)
unfolding get to_hex_text ◌===◌ to_bech32 encode is_evm_address
forms_agree_example =
    forms_agree services dym_info holder (3 ∷ text "DYM" ++ sevens)
      (text "0x" ++ to_hex_text sevens) (3 ∷ text "dym" ++ sevens) (text "dym-hub") undefined
      undefined undefined refl refl (ground arith) refl ((λ e. ground arith), ground arith, refl)
      refl refl refl refl

only : (x y : RefRow) → Member x (moved ∷ []) → Member y (moved ∷ []) → x ≡ y
only x y here here = refl
only x y here (there m) = elim m [ ]
only x y (there m) n = elim m [ ]

only_moved :
    AreToldApart ref_matches
      (moved ∷ [])
      (get_account_transactions_where_condition moved.chain_id moved.bech32_address
        (get_filter_options_from_tx_type (string (text "senttxs"))))
      ((λ r. r.height) ∷ [])
only_moved x y m n _ _ _ = only x y m n

account_transaction_listed_example :
    (p : ℕ) × (j : ℕ) × (j < 10)
    × (get_elem?
          (transactions_of services dym_info moved.bech32_address
            (string (text "senttxs"))
            (string (to_string 10))
            (string (to_string p))).body
          j
        ≡ some (todo_fields moved.recent_accounts_transaction))
account_transaction_listed_example =
    account_transaction_listed services dym_info (string (text "senttxs")) moved 10 here refl
      ((λ e. refl), (λ e. ground arith), (λ e. ground arith)) only_moved (omega arith) (omega arith)
