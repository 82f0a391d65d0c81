-- ===== src/Lib.antt =====
-- Service-Identity-Provider: two Kubernetes operators that provide key pairs for mTLS, and the
-- programs that prepare the Vault that they draw on.
--
-- The programs talk to Kubernetes and to Vault, which are no part of the repository. Both are a
-- parameter, the record `Cluster` of Cluster/Interface.antt: one function for each request, which
-- may change the state of the service and may fail at any time. A program is a function on a
-- `World`, the states of the two services and the trace of the requests sent, newest first; it
-- returns, fails with an error, panics, or ends the process (Cluster/Effects.antt). What
-- Kubernetes and Vault document is stated in Cluster/Laws.antt; theorems that rest on it take
-- `KubeLaws` or `VaultLaws` as a hypothesis, and Cluster/Memory.antt is a cluster that keeps
-- both. The laws describe a cluster in which nobody else writes during a run, and no law says
-- that a Secret reported missing is missing, since a controller may read from a cache. All other
-- theorems hold for every cluster. Cluster/Rules.antt has the rules by which the proofs go
-- through chains of calls, and Cluster/Frame.antt says what a change to the Secrets leaves alone.
--
-- Objects.antt: the Kubernetes objects and errors.
-- Resources: the custom resources, from operator/internal-cert/api/v1alpha1/
--   internalcertificate_types.go and operator/internal-client-ca/api/v1alpha1/
--   internalclientca_types.go. `SecretRef` is the struct `Secret` there.
-- Cert: operator/internal-cert. Webhook is internalcertificate_webhook.go and Reconciler is
--   internalcertificate_controller.go: `Reconcile` is `reconcile`, with one function for each part
--   that follows a request, and `buildSecretFrom` is `build_secret_from`.
-- ClientCa: operator/internal-client-ca. Setup is `enablePKIClientCA`, as one function for each of
--   its steps, and `disableFlag`; Reconciler is `Reconcile` and `buildSecretFrom`.
-- Pki: vault/client-go/pki/main.go. Setup is `enablePKIIntermCA`, `disableFlag` and
--   `enablePKIRootCA` up to its goroutine. Process is the rest of `main` and the goroutine as two
--   threads that share `err`, which each case of the `switch` reads in a step of its own: a run
--   follows a schedule, a list of the threads whose step is next.
-- Unseal: vault/client-go/init/main.go. Begin is `main` up to its goroutines; Process has the rest
--   of it, `initVault`, `unSeal` and the three workers as threads, with the counter of the wait
--   group, the panics that run into its deferred wait, and the end of a process in which no
--   goroutine can move. The sleep of a worker is left out: a schedule may start it at any time.
-- Bootstrap: vault/client-go/bootstrap/main.go. Job is `main`, one function for each part that
--   follows a request. Key generation, x509 and PEM belong to the pod, and the second for which it
--   sleeps is left out.
-- Persist: the statements by which that file and bootstrap/main.go store a Secret, one request at
--   a time.
-- Demo: mtls-demo, the package main. Machine has the files and the parameters `Packages`, which are
--   the random source and the formats of crypto, x509 and pem; Util is util.go, and Flows the other
--   files. A program there is a function on the files and the random source; what a write that
--   failed leaves in its file is one of the parameters.
-- Startup: what the `init` functions of the programs of the cluster share. Pki/Start, Unseal/Start
--   and Bootstrap/Start have those of the three jobs, and each job from its `init` on.
-- Operator: operator/internal-cert/cmd/main.go and operator/internal-client-ca/cmd/main.go. Certs
--   and Cas are the two programs, Start what they share, Flags and Options their command line and
--   what becomes of it. The manager of controller-runtime is a parameter, the record `Framework` of
--   Operator/Manager.antt, which answers each of a program's requests.
-- Services: mtls-demo/service-consumer/main.go is Consumer, with the turns of its endless loop as
--   fuel, and mtls-demo/service-provider/main.go is Provider, whose servers start and stop in any
--   order by the relation `Step`. What crypto/x509 decides of certificates is the record `Checks`.
-- Tls: what the programs set of a `tls.Config`.
-- Handover: the root token from the unsealing job to the programs that read it.
-- Issuance: the roles and mounts that certificates are issued by, and the programs that set them
--   up.
-- Base: the shared names, and Go's string maps, `strings.TrimSuffix` and `strings.Split`.
-- Examples: concrete runs, as in the cluster of Cluster/Memory.antt, and the theorems at concrete
--   inputs.
--
-- The loops are over lists, by structural recursion. `persist_from` takes the number of its steps
-- as fuel, which is three, the longest way through the `switch` that it stands for
-- (Persist/Enough.antt). Logging is left
-- out. Not modelled: how Go's package flag divides a command line into names and values, and the
-- flags that zap and controller-runtime declare; the least version of TLS of the provider, which
-- the clients offer anyway; generated code and the registration of the groups; tests; and two files
-- under vault/client-go without code, pki/pki_internal.go and k8s_auth/main.go.
pub mod Base
pub mod Objects
pub mod Resources
pub mod Cluster
pub mod Startup
pub mod Cert
pub mod ClientCa
pub mod Pki
pub mod Persist
pub mod Unseal
pub mod Bootstrap
pub mod Demo
pub mod Tls
pub mod Services
pub mod Operator
pub mod Handover
pub mod Issuance
pub mod Examples
