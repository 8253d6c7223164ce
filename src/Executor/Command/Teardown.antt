-- ===== src/Executor/Command/Teardown.antt =====
-- What the `finally` of the command leaves open, and what it closes.
use mathlib.Core.Path.{subst}
use openeo_argoworkflows.Base.{
  Bool, true, false, Option, none, some, List, ◌≡◌, refl, sym, inl, inr, arith,
}
use openeo_argoworkflows.Base.Lists.{In, In-append-left, In-append-right}
use openeo_argoworkflows.Executor.Command.{
  Cluster, Tools, Event, shut_down, closed_client, closed_local, closed_gateway, Handles, Traced,
  current_cluster, shut_down_current, teardown_cluster, when, close_dask, run, closing, after_parse,
  proceed, execute, set_up,
}

-- Everything that was opened is closed.
pub record IsClosed (t : Tools) (h : Handles) (events : List Event) : Type 0 where
  pub cluster :
      (c d : Cluster)
      → h.dask_cluster ≡ some c
      → current_cluster t h.gateway c ≡ some d
      → In (shut_down d.name) events
  pub client : h.client ≡ true → In closed_client events
  pub local_cluster : h.local_cluster ≡ true → In closed_local events
  pub gateway : h.gateway ≡ true → In closed_gateway events

In-when : (b : Bool) (e : Event) → b ≡ true → In e (when b e)
In-when true e h = inl refl
In-when false e h = cc

In-teardown_cluster :
    (t : Tools) (o : Option Cluster) (gateway : Bool) (c d : Cluster)
    → o ≡ some c
    → current_cluster t gateway c ≡ some d
    → In (shut_down d.name) (teardown_cluster t o gateway)
unfolding teardown_cluster shut_down_current
In-teardown_cluster t none gateway c d e f = cc
In-teardown_cluster t (some b) gateway c d e f = ground (arith, e, f)

module _ (h : Handles) where
  In-close_client : h.client ≡ true → In closed_client (close_dask h)
  unfolding close_dask
  In-close_client e = In-append-left closed_client (when h.client closed_client) _ (In-when _ _ e)

  In-close_local : h.local_cluster ≡ true → In closed_local (close_dask h)
  unfolding close_dask
  In-close_local e =
      In-append-right closed_local (when h.client closed_client) _
        (In-append-left closed_local (when h.local_cluster closed_local) _ (In-when _ _ e))

  In-close_gateway : h.gateway ≡ true → In closed_gateway (close_dask h)
  unfolding close_dask
  In-close_gateway e =
      In-append-right closed_gateway (when h.client closed_client) _
        (In-append-right closed_gateway (when h.local_cluster closed_local) _ (In-when _ _ e))

  closing-IsClosed : (t : Tools) → IsClosed t h (closing t h)
  unfolding closing
  closing-IsClosed t =
      let shut = teardown_cluster t h.dask_cluster h.gateway in
      record {
        cluster = λ c d e f.
            In-append-left (shut_down d.name) shut _
              (In-teardown_cluster t h.dask_cluster h.gateway c d e f);
        client = λ e. In-append-right closed_client shut _ (In-close_client e);
        local_cluster = λ e. In-append-right closed_local shut _ (In-close_local e);
        gateway = λ e. In-append-right closed_gateway shut _ (In-close_gateway e);
      }

IsClosed-more :
    (t : Tools) (h : Handles) (xs ys : List Event)
    → ((e : Event) → In e xs → In e ys)
    → IsClosed t h xs
    → IsClosed t h ys
IsClosed-more t h xs ys more c = record {
  cluster = λ a b e f. more _ (c.cluster a b e f);
  client = λ e. more _ (c.client e);
  local_cluster = λ e. more _ (c.local_cluster e);
  gateway = λ e. more _ (c.gateway e);
}

run-IsClosed : (t : Tools) (is_cwl : Bool) (h : Handles) → IsClosed t h ((run t is_cwl h).1)
unfolding run
run-IsClosed t is_cwl h =
    IsClosed-more t h (closing t h) _ (λ e m. inr (In-append-left e (closing t h) _ m))
      (closing-IsClosed h t)

after_parse-IsClosed :
    (t : Tools) (h : Handles) (b : Bool) (r : Traced Unit) (before : List Event)
    → b ≡ true
    → IsClosed t h (r.1)
    → IsClosed t h ((after_parse b r before).1)
unfolding after_parse
after_parse-IsClosed t h true (o, events) before p c =
    IsClosed-more t h events _ (λ e m. In-append-right e before events m) c
after_parse-IsClosed t h false r before p c = cc

-- Once the cluster is set up and the graph is parsed, the command closes what it opened, whether
-- the graph then runs or raises: the client, the local cluster, the gateway, and the cluster or
-- its successor, where the look for the successor did not raise.
pub execute-IsClosed :
    (t : Tools) (is_cwl local : Bool) (h : Handles) (before : List Event)
    → set_up t is_cwl local ≡ (some h, before)
    → t.parse_graph ≡ true
    → IsClosed t h ((execute t is_cwl local).1)
unfolding execute proceed
execute-IsClosed t is_cwl local h before e p =
    subst (λ r. IsClosed t h ((proceed t is_cwl r).1)) (sym e)
      (after_parse-IsClosed t h _ _ before p (run-IsClosed t is_cwl h))
