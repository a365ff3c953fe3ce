-- ===== src/Router/Load.antt =====
-- Scrape values and scores. A float of the source is counted in thousandths; `infinite` is the
-- `float("inf")` that a failed scrape leaves (vllm_metrics_client.py).
use llm_router_server_dashbo.Base.{
  ℕ, ◌+◌, ◌*◌, ◌≡◌, Bool, true, false, Option, String, arith, leb, ltb, refl,
}

pub data Load : Type 0 where
  finite : ℕ → Load
  infinite : Load

infixl 65 ◌⊕◌
unfoldable pub ◌⊕◌ : Load → Load → Load
finite a ⊕ finite b = finite (a + b)
finite a ⊕ infinite = infinite
infinite ⊕ b = infinite

-- a * w, the weight a positive constant
unfoldable pub scale : ℕ → Load → Load
scale w (finite a) = finite (w * a)
scale w infinite = infinite

-- a < b on floats: infinity is not below itself
unfoldable pub load_lt : Load → Load → Bool
load_lt (finite a) (finite b) = ltb a b
load_lt (finite a) infinite = true
load_lt infinite b = false

-- a <= b on floats
unfoldable pub load_le : Load → Load → Bool
load_le (finite a) (finite b) = leb a b
load_le a infinite = true
load_le infinite (finite b) = false

pub record Metrics : Type 0 where
  pub base_url : String
  pub running : Load
  pub waiting : Load
  pub kv_cache_usage_perc : Load
  pub prompt_tokens : Load
  pub generation_tokens : Load
  pub raw_metrics : Option String
  pub is_sleeping : Bool

unfoldable pub compute_load_score : Metrics → Load
unfolding ◌⊕◌ scale
compute_load_score m = scale 10 m.waiting ⊕ scale 3 m.running ⊕ scale 100 m.kv_cache_usage_perc

-- The values of `_safe_fetch` when the scrape raised.
unfoldable pub unreachable : String → Metrics
unreachable base_url = record {
  base_url = base_url;
  running = infinite;
  waiting = infinite;
  kv_cache_usage_perc = infinite;
  prompt_tokens = infinite;
  generation_tokens = infinite;
  raw_metrics = Option.none;
  is_sleeping = false;
}

pub load_le_refl : (a : Load) → load_le a a ≡ true
unfolding load_le
load_le_refl (finite a) = ground arith
load_le_refl infinite = refl

pub load_le_trans : (a b c : Load) → load_le a b ≡ true → load_le b c ≡ true → load_le a c ≡ true
unfolding load_le
load_le_trans a b c h k = ground arith

pub load_le-of_lt : (a b : Load) → load_lt a b ≡ true → load_le a b ≡ true
unfolding load_le load_lt
load_le-of_lt a b h = ground arith

pub load_le-of_not-lt : (a b : Load) → load_lt a b ≡ false → load_le b a ≡ true
unfolding load_le load_lt
load_le-of_not-lt a b h = ground arith

pub not-load_lt-of_le : (a b : Load) → load_le a b ≡ true → load_lt b a ≡ false
unfolding load_le load_lt
not-load_lt-of_le a b h = ground arith

pub load_lt-of_lt-le : (a b c : Load) → load_lt a b ≡ true → load_le b c ≡ true → load_lt a c ≡ true
unfolding load_le load_lt
load_lt-of_lt-le a b c h k = ground arith

pub load_le-add : (a b m : Load) → load_le a b ≡ true → load_le (a ⊕ m) (b ⊕ m) ≡ true
unfolding load_le ◌⊕◌
load_le-add a b m h = ground arith

pub load_le-add_right : (a : Load) (m : ℕ) → load_le a (a ⊕ finite m) ≡ true
unfolding load_le ◌⊕◌
load_le-add_right a m = ground arith
