-- ===== src/Transaction/Names.antt =====
-- `getMessageName` of web-app/src/utils/transaction.ts.
pub mod Laws
use dymension_rollapp_block.Common.{
  ℕ, Bool, true, false, not, ◌&&◌, ◌||◌, Option, none, some, List, [], ◌∷◌, ◌++◌, ◌==◌, any,
  if◌then◌else◌,
}
use dymension_rollapp_block.Common.Text.{Str, text, ◌===◌, starts_with, is_digit, is_lower}
use dymension_rollapp_block.Common.Dict.{Dict, get}

-- `/^([a-z\d]+\.)+Msg/`: in a word, behind at least one word and its dot, or neither.
unfoldable pub matches_msg : (in_word behind_dot : Bool) → Str → Bool
unfolding starts_with
matches_msg in_word behind_dot [] = false
matches_msg in_word behind_dot (c ∷ s) =
    let word = matches_msg true behind_dot s in
    let next = matches_msg false true s in
    if is_lower c || is_digit c
    then word
    else if c == b'.'
    then in_word && next
    else not in_word && behind_dot && starts_with (c ∷ s) (text "Msg")

-- The cases of the `switch`. `'/a' || 'b'` is `'/a'`, so two cases have one label each.
unfoldable pub names : Dict Str
names =
    (text "/cosmos.distribution.v1beta1.MsgWithdrawDelegatorReward", text "Withdraw Reward")
    ∷ (text "/cosmos.staking.v1beta1.MsgDelegate", text "Delegate")
    ∷ (text "/ethermint.evm.v1.MsgEthereumTx", text "EVM")
    ∷ (text "/evmos.erc20.v1.MsgConvertERC20", text "Convert ERC20 token to IBC coin")
    ∷ (text "/evmos.erc20.v1.MsgConvertCoin", text "Convert IBC coin to ERC20 token")
    ∷ (text "/cosmos.bank.v1beta1.MsgSend", text "Send")
    ∷ (text "/cosmos.bank.v1beta1.MsgMultiSend", text "Multi Send")
    ∷ (text "/ibc.applications.transfer.v1.MsgTransfer", text "IBC Transfer")
    ∷ (text "/cosmos.authz.v1beta1.MsgExec", text "Exec")
    ∷ (text "/ibc.core.channel.v1.MsgAcknowledgement", text "IBC Acknowledgement")
    ∷ (text "/ibc.core.client.v1.MsgUpdateClient", text "IBC Update Client")
    ∷ (text "/ibc.core.channel.v1.MsgRecvPacket", text "IBC Receive")
    ∷ (text "/cosmos.staking.v1beta1.MsgBeginRedelegate", text "Re-Delegate")
    ∷ (text "/cosmos.gov.v1beta1.MsgVote", text "Vote")
    ∷ (text "/cosmos.staking.v1beta1.MsgUndelegate", text "Un-Stake")
    ∷ (text "/cosmos.authz.v1beta1.MsgGrant", text "Grant Permission")
    ∷ (text "/cosmos.authz.v1beta1.MsgRevoke", text "Revoke Permission")
    ∷ (
      text "/cosmos.distribution.v1beta1.MsgWithdrawValidatorCommission",
      text "Withdraw Commission",
    )
    ∷ (text "/ibc.core.channel.v1.MsgTimeout", text "IBC Msg Timeout")
    ∷ (text "/cosmos.gov.v1beta1.MsgDeposit", text "Gov Deposit")
    ∷ (text "/cosmos.distribution.v1beta1.MsgSetWithdrawAddress", text "Set Withdrawal Address")
    ∷ (text "/cosmos.staking.v1beta1.MsgCreateValidator", text "Create Validator")
    ∷ (text "/cosmos.staking.v1beta1.MsgEditValidator", text "Edit Validator")
    ∷ (text "/cosmos.gov.v1beta1.MsgSubmitProposal", text "Submit Proposal")
    ∷ (text "/cosmos.slashing.v1beta1.MsgUnjail", text "Unjail")
    ∷ (text "/ibc.core.client.v1.MsgCreateClient", text "IBC Create Client")
    ∷ (text "/dymensionxyz.dymension.rollapp.MsgCreateRollapp", text "Create RollApp")
    ∷ (text "/dymensionxyz.dymension.rollapp.MsgUpdateState", text "Update RollApp State")
    ∷ (text "/dymensionxyz.dymension.sequencer.MsgCreateSequencer", text "Create Sequencer RA")
    ∷ (
      text "/dymensionxyz.dymension.gamm.poolmodels.balancer.v1beta1.MsgCreateBalancerPool",
      text "Create Balancer Pool",
    )
    ∷ (text "/dymensionxyz.dymension.gamm.v1beta1.MsgJoinPool", text "Join Pool")
    ∷ (text "/dymensionxyz.dymension.gamm.v1beta1.MsgExitPool", text "Exit Pool")
    ∷ (text "/dymensionxyz.dymension.gamm.v1beta1.MsgSwapExactAmountIn", text "Swap Exact Amt In")
    ∷ (text "/dymensionxyz.dymension.gamm.v1beta1.MsgSwapExactAmountOut", text "Swap Exact Amt Out")
    ∷ (
      text "/dymensionxyz.dymension.gamm.v1beta1.MsgJoinSwapExternAmountIn",
      text "Join Swap Exact Amt In",
    )
    ∷ (
      text "/dymensionxyz.dymension.gamm.v1beta1.MsgJoinSwapShareAmountOut",
      text "Join Swap Share Amt Out",
    )
    ∷ (
      text "/dymensionxyz.dymension.gamm.v1beta1.MsgExitSwapShareAmountIn",
      text "Exit Swap Share Amt In",
    )
    ∷ (
      text "/dymensionxyz.dymension.gamm.v1beta1.MsgExitSwapExternAmountOut",
      text "Exit Swap Share Amt Out",
    )
    ∷ (text "/osmosis.incentives.MsgCreateGauge", text "Create Gauge")
    ∷ (text "/osmosis.incentives.MsgAddToGauge", text "Add To Gauge")
    ∷ (text "/osmosis.lockup.MsgLockTokens", text "Lock Tokens")
    ∷ (text "/osmosis.lockup.MsgBeginUnlockingAll", text "Begin Unlocking ALL")
    ∷ (text "/osmosis.lockup.MsgBeginUnlocking", text "Begin Unlocking")
    ∷ (text "/osmosis.lockup.MsgExtendLockup", text "Extend Lockup")
    ∷ (text "/osmosis.lockup.MsgForceUnlock", text "Force Unlock")
    ∷ []

abbrev pub has_dot : Str → Bool
has_dot s = any (λ c. c == b'.') s

-- `messageType.match(/[^.]+$/)`: what stands behind the last dot; `''` where that is nothing.
unfoldable pub last_part : Str → Str
last_part [] = []
last_part (c ∷ s) =
    let rest = last_part s in if has_dot s then rest else if c == b'.' then s else c ∷ s

-- The slash that the source puts before a type that is written without it.
unfoldable pub with_slash : Str → Str
unfolding matches_msg
with_slash message_type =
    if matches_msg false false message_type then b'/' ∷ message_type else message_type

-- The `switch`.
unfoldable pub name_of : Str → Str
unfolding names get last_part
name_of message_type = elim (get names message_type) [
  | some name ↦ name
  | none ↦ last_part message_type
]

unfoldable pub get_message_name : Str → Str
unfolding with_slash name_of
get_message_name message_type = name_of (with_slash message_type)
