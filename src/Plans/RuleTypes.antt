-- ===== src/Plans/RuleTypes.antt =====
-- internal/plans/plans.go: the rule types of the asset rules and of the market rules.
use de_box_asset_alert.Prelude.{String, List, [], ◌∷◌, ◌++◌}
use de_box_asset_alert.Plans.Types.{RuleType, balance_threshold, high_balance_threshold}

abbrev pub balance_change : String
balance_change = "balance_change"

abbrev pub incoming : String
incoming = "incoming"

abbrev pub outgoing : String
outgoing = "outgoing"

abbrev pub approval_change : String
approval_change = "approval_change"

abbrev pub address_interaction : String
address_interaction = "address_interaction"

abbrev pub market_price_above : String
market_price_above = "market_price_above"

abbrev pub market_price_below : String
market_price_below = "market_price_below"

abbrev pub market_price_increase : String
market_price_increase = "market_price_increase"

abbrev pub market_price_decrease : String
market_price_decrease = "market_price_decrease"

abbrev pub market_liquidity_below : String
market_liquidity_below = "market_liquidity_below"

abbrev pub market_liquidity_decrease : String
market_liquidity_decrease = "market_liquidity_decrease"

abbrev pub market_volume_above : String
market_volume_above = "market_volume_above"

abbrev pub market_volume_spike : String
market_volume_spike = "market_volume_spike"

abbrev pub market_trade_imbalance : String
market_trade_imbalance = "market_trade_imbalance"

abbrev pub market_large_buy : String
market_large_buy = "market_large_buy"

abbrev pub market_large_sell : String
market_large_sell = "market_large_sell"

abbrev pub market_consecutive_large_buy : String
market_consecutive_large_buy = "market_consecutive_large_buy"

abbrev pub market_consecutive_large_sell : String
market_consecutive_large_sell = "market_consecutive_large_sell"

abbrev pub market_liquidity_added : String
market_liquidity_added = "market_liquidity_added"

abbrev pub market_liquidity_removed : String
market_liquidity_removed = "market_liquidity_removed"

abbrev pub market_new_pool : String
market_new_pool = "market_new_pool"

abbrev pub market_holder_increase : String
market_holder_increase = "market_holder_increase"

abbrev pub market_holder_decrease : String
market_holder_decrease = "market_holder_decrease"

abbrev pub market_holder_rank_entered : String
market_holder_rank_entered = "market_holder_rank_entered"

abbrev pub market_holder_rank_exited : String
market_holder_rank_exited = "market_holder_rank_exited"

abbrev pub market_four_meme_large_trade : String
market_four_meme_large_trade = "market_four_meme_large_trade"

abbrev pub market_four_meme_progress : String
market_four_meme_progress = "market_four_meme_progress"

abbrev pub market_four_meme_migration : String
market_four_meme_migration = "market_four_meme_migration"

abbrev pub rule_types : List RuleType
rule_types =
    record { code = balance_change; label = "余额变化"; description = "余额发生任意变化时推送通知。" }
    ∷ record { code = incoming; label = "转入提醒"; description = "余额增加并达到阈值时推送通知。" }
    ∷ record { code = outgoing; label = "转出提醒"; description = "余额减少并达到阈值时推送通知。" }
    ∷ record {
      code = balance_threshold;
      label = "低余额阈值";
      description = "余额首次达到或低于阈值时提醒一次；持续低于不重复，恢复后再次跌破会重新提醒。";
    }
    ∷ record {
      code = high_balance_threshold;
      label = "高余额阈值";
      description = "余额首次达到或高于阈值时提醒一次；持续高于不重复，回落后再次突破会重新提醒。";
    }
    ∷ record {
      code = approval_change;
      label = "授权 / Approve 监控";
      description = "钱包对指定合约的代币授权额度发生变化时推送通知。";
    }
    ∷ record {
      code = address_interaction;
      label = "指定地址交互提醒";
      description = "钱包与指定地址或合约发生交互时推送通知。";
    }
    ∷ []

abbrev pub standard_market_rule_types : List String
standard_market_rule_types =
    market_price_above ∷ market_price_below ∷ market_price_increase ∷ market_price_decrease
    ∷ market_liquidity_below ∷ market_liquidity_decrease ∷ market_volume_above ∷ market_volume_spike
    ∷ market_trade_imbalance ∷ []

abbrev pub professional_market_rule_types : List String
professional_market_rule_types =
    standard_market_rule_types
    ++ (market_large_buy ∷ market_large_sell ∷ market_consecutive_large_buy
        ∷ market_consecutive_large_sell ∷ market_liquidity_added ∷ market_liquidity_removed
        ∷ market_new_pool ∷ market_holder_increase ∷ market_holder_decrease
        ∷ market_holder_rank_entered ∷ market_holder_rank_exited ∷ market_four_meme_large_trade
        ∷ market_four_meme_progress ∷ market_four_meme_migration ∷ [])
