-- ===== src/Preconn/Empty.antt =====
-- The pools when the module starts.
use mathlib.Core.Option.{none-ne-some}
use ktcp_split.Common.{ℕ, false, []}
use ktcp_split.RbTree.{leaf, search_rb}
use ktcp_split.Preconn.{Pools, PercpuList, search_rb_preconn}
use ktcp_split.Preconn.Stacks.{IsPools}

abbrev no_lists : ℕ → ℕ → PercpuList
no_lists addr cpu = record { list = []; len = 0 }

abbrev pub no_pools : Pools
no_pools = record { tree = leaf; lists = no_lists; fault = false }

pub no_pools-IsPools : IsPools no_pools
unfolding search_rb_preconn search_rb
no_pools-IsPools = record {
  valid = record { sorted = tt; keys = tt };
  apart = λ j k d e j' k' h h' same. absurd (none-ne-some d h);
}
