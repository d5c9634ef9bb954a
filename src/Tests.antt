-- ===== src/Tests.antt =====
-- A concrete kernel and application, and the theorems at concrete inputs.
mod Machine
mod CoreCases
mod ObservableCases
mod MethodCases
mod PacketCases
mod TableCases
mod GroupsCases
mod RoutingCases
mod RpcCases
mod ShellCases
mod SlabCases
mod SampleCases
mod ServerCases
mod RateCases
mod ImageCases
