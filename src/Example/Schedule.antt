-- ===== src/Example/Schedule.antt =====
-- What the main loop of the example does in its hour.
use clink3_wiki.Prelude.{
  ℕ, zero, suc, ◌+◌, ◌-◌, ◌*◌, ◌/◌, ◌%◌, ◌≤◌, ◌<◌, ◌≡◌, ap, ap₂, ◌∙◌, refl, List, [], ◌∷◌, ◌++◌,
  false, Option, none, some, ltb, ◌==◌, Bool-cases, inl, inr, Returns, arith, subst, ◌≢◌,
  length-append,
}
use clink3_wiki.Prelude.Int.{ℤ, pos}
use clink3_wiki.Prelude.Decimal.{decimal_int, length-decimal_int}
use clink3_wiki.Prelude.Text.{codes}
use clink3_wiki.Wifi.Limits.{fits}
use clink3_wiki.Example.Events.{
  report, trigger_event, post_property, property_payload, user_post_property, user_post_event,
}
use clink3_wiki.Example.Main.{
  MetaInfo, Action, linkkit_open, linkkit_connect, linkkit_yield, call, sleep_ms, linkkit_close,
  turn_actions, turn_counter, behind, main_loop, after_loop, run_main,
}

-- The payloads of the property posts
unfoldable pub properties : List Action → List (List ℕ)
properties [] = []
properties (call (report post_property p) ∷ actions) = p ∷ properties actions
properties (a ∷ actions) = properties actions

-- The number of events that are triggered
unfoldable pub events : List Action → ℕ
events [] = 0
events (call (trigger_event i p) ∷ actions) = suc (events actions)
events (a ∷ actions) = events actions

unfoldable pub yields : List Action → ℕ
yields [] = 0
yields (linkkit_yield ms ∷ actions) = suc (yields actions)
yields (a ∷ actions) = yields actions

-- The milliseconds slept
unfoldable pub slept : List Action → ℕ
slept [] = 0
slept (sleep_ms ms ∷ actions) = ms + slept actions
slept (a ∷ actions) = slept actions

-- The payloads with the next `n` values of the counter
unfoldable pub counted : ℕ → ℕ → List (List ℕ)
counted c zero = []
counted c (suc n) =
    (codes "{\"Counter\": " ++ (decimal_int (pos c) ++ codes "}")) ∷ counted (c + 1) n

-- What the loop does from `cnt` on
pub record Hour (cnt counter : ℕ) (actions : List Action) : Type 0 where
  pub posts : properties actions ≡ counted counter (1801 - (cnt + 1) / 2)
  pub triggered : events actions ≡ 361 - (cnt + 9) / 10
  pub yielded : yields actions ≡ 3601 - cnt
  pub sleep : slept actions ≡ 1000 * (3600 - cnt)

property_payload-counted :
    (c : ℕ) → property_payload c ≡ codes "{\"Counter\": " ++ (decimal_int (pos c) ++ codes "}")
unfolding property_payload
property_payload-counted c =
    fits 30 (codes "{\"Counter\": " ++ (decimal_int (pos c) ++ codes "}")) (
      omega (
        arith,
        length-append (codes "{\"Counter\": ") (decimal_int (pos c) ++ codes "}"),
        length-append (decimal_int (pos c)) (codes "}"),
        length-decimal_int (pos c),
      ))

last_turn : (counter : ℕ) → Hour 3600 counter (turn_actions 3600 counter)
unfolding turn_actions user_post_property user_post_event properties events yields slept counted
last_turn counter = record {
  posts = ap (λ p. p ∷ []) (property_payload-counted counter);
  triggered = refl;
  yielded = refl;
  sleep = refl;
}

module _ (cnt counter : ℕ) (more : List Action) (h : cnt < 3600) where
  -- A turn with an odd counter only yields and sleeps.
  odd_turn :
      cnt % 2 ≡ 1
      → Hour (cnt + 1) counter more
      → Hour cnt counter (linkkit_yield 200 ∷ sleep_ms 1000 ∷ more)
  unfolding properties events yields slept
  odd_turn odd r = record {
    posts = r.posts ∙ ap (counted counter) (omega (arith, odd));
    triggered = omega (arith, odd, r.triggered);
    yielded = omega (arith, r.yielded, h);
    sleep = omega (arith, r.sleep, h);
  }

  even_posts :
      cnt % 2 ≡ 0
      → properties more ≡ counted (counter + 1) (1801 - (cnt + 1 + 1) / 2)
      → property_payload counter ∷ properties more ≡ counted counter (1801 - (cnt + 1) / 2)
  unfolding counted
  even_posts even e =
      let one_more : 1801 - (cnt + 1) / 2 ≡ suc (1801 - (cnt + 1 + 1) / 2) =
        omega (arith, even, h) in
      rw one_more (ap₂ (λ p ps. p ∷ ps) (property_payload-counted counter) e)

  -- An even one posts the property,
  even_turn :
      cnt % 2 ≡ 0
      → cnt % 10 ≢ 0
      → Hour (cnt + 1) (counter + 1) more
      → Hour cnt counter (
          linkkit_yield 200
          ∷ call (report post_property (property_payload counter))
          ∷ sleep_ms 1000
          ∷ more)
  unfolding properties events yields slept
  even_turn even other r = record {
    posts = even_posts even r.posts;
    triggered = omega (arith, other, r.triggered);
    yielded = omega (arith, r.yielded, h);
    sleep = omega (arith, r.sleep, h);
  }

  -- and every tenth one triggers the event too.
  tenth_turn :
      cnt % 10 ≡ 0
      → Hour (cnt + 1) (counter + 1) more
      → Hour cnt counter (
          linkkit_yield 200
          ∷ call (report post_property (property_payload counter))
          ∷ call user_post_event
          ∷ sleep_ms 1000
          ∷ more)
  unfolding properties events yields slept user_post_event
  tenth_turn tenth r = record {
    posts = even_posts (omega (arith, tenth)) r.posts;
    triggered = omega (arith, tenth, r.triggered, h);
    yielded = omega (arith, r.yielded, h);
    sleep = omega (arith, r.sleep, h);
  }

  one_turn :
      Hour (cnt + 1) (turn_counter cnt counter) more
      → Hour cnt counter ((turn_actions cnt counter ++ sleep_ms 1000 ∷ []) ++ more)
  unfolding turn_actions turn_counter user_post_property
  one_turn r = elim (Bool-cases (cnt % 2 == 0)) [
    | inr odd ↦
        let uneven : (cnt % 10 == 0) ≡ false = ground (arith, odd) in
        rw (odd, uneven) (odd_turn (ground (arith, odd)) (rw odd at r))
    | inl even ↦ elim (Bool-cases (cnt % 10 == 0)) [
      | inr other ↦
          rw (even, other) (even_turn (ground (arith, even)) (ground (arith, other)) (rw even at r))
      | inl tenth ↦ rw (even, tenth) (tenth_turn (ground (arith, tenth)) (rw even at r))
    ]
  ]

behind-Hour :
    (cnt counter : ℕ) (o : Option (List Action))
    → cnt < 3600
    → Returns (Hour (cnt + 1) (turn_counter cnt counter)) o
    → Returns (Hour cnt counter) (behind (turn_actions cnt counter ++ sleep_ms 1000 ∷ []) o)
behind-Hour cnt counter none h r = r
behind-Hour cnt counter (some more) h r = one_turn cnt counter more h r

pub main_loop-Hour :
    (fuel cnt counter : ℕ)
    → cnt ≤ 3600
    → 3600 < fuel + cnt
    → Returns (Hour cnt counter) (main_loop fuel cnt counter)
unfolding main_loop
main_loop-Hour zero cnt counter h enough = absurd (omega arith)
main_loop-Hour (suc fuel) cnt counter h enough = elim (Bool-cases (ltb 3600 (cnt + 1))) [
  | inl last ↦
      let e : 3600 ≡ cnt = ground (arith, last) in
      rw last (subst (λ n. Hour n counter (turn_actions n counter)) e (last_turn counter))
  | inr on ↦
      let before : cnt < 3600 = ground (arith, on) in
      rw on (
        behind-Hour cnt counter (main_loop fuel (cnt + 1) (turn_counter cnt counter)) before
          (main_loop-Hour fuel (cnt + 1) (turn_counter cnt counter) (omega arith) (omega arith)))
]

-- A run of `main` that opened and connected the device, and closed it at the end
pub record Ran (devid : ℕ) (info : MetaInfo) (r : ℤ × List Action) : Type 0 where
  pub hour : List Action
  pub result : r.0 ≡ pos 0
  pub actions :
      r.1
      ≡ linkkit_open info ∷ linkkit_connect (pos devid) ∷ (hour ++ linkkit_close (pos devid) ∷ [])
  pub posts : properties hour ≡ counted 0 1801
  pub triggered : events hour ≡ 361
  pub yielded : yields hour ≡ 3601
  pub sleep : slept hour ≡ 3600000

after_loop-Ran :
    (devid : ℕ) (info : MetaInfo) (o : Option (List Action))
    → Returns (Hour 0 0) o
    → Returns (Ran devid info) (after_loop devid info o)
unfolding after_loop
after_loop-Ran devid info none h = h
after_loop-Ran devid info (some actions) h = record {
  hour = actions;
  result = refl;
  actions = refl;
  posts = h.posts;
  triggered = h.triggered;
  yielded = h.yielded;
  sleep = h.sleep;
}

-- When the device opens and connects, `main` ends after 3601 turns with result 0: it yields in every
-- turn, posts the counters 0 to 1800 in their order and whole, triggers 361 events, sleeps an hour,
-- and then closes the device. 3601 units of fuel are enough.
pub run_main-Ran :
    (fuel devid n : ℕ) (info : MetaInfo)
    → 3600 < fuel
    → Returns (Ran devid info) (run_main fuel (pos devid) (pos n) info)
unfolding run_main
run_main-Ran fuel devid n info enough =
    after_loop-Ran devid info (main_loop fuel 0 0)
      (main_loop-Hour fuel 0 0 (omega arith) (omega arith))
